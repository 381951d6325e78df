-- ===== src/Listing.antt =====
-- What the listings of the API share: their ranges of dates, and their pages.
pub mod Ranges
pub mod Pages
