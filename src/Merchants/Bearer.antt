-- ===== src/Merchants/Bearer.antt =====
-- The header that carries a key: `canActivate` of the API's auth/merchant-api-key.guard.ts.
use achflow.Prelude.{
  ℕ, ◌≡◌, ◌∙◌, refl, ap, String, Bool, true, false, ◌&&◌, not, List, [], ◌∷◌, some, is_space, trim,
  trim_end, arith,
}
use Prim.Native.Char.{Char, code}
use Prim.Native.String.{◌++◌}
use Prim.Native.String.append
use achflow.Schema.{Db}
use achflow.Merchants.Authentication.{
  bearer, is_line_end, after_word, skip_spaces, has_line_end, bearer_key, authenticate,
  can_activate,
}

-- A key as `newKey` makes them has no white space.
unfoldable pub is_solid : String → Bool
unfolding is_space
is_solid String.[] = true
is_solid (String.◌∷◌ c s) = not (is_space (code c)) && is_solid s

solid-parts :
    (c : Char) (s : String)
    → is_solid (String.◌∷◌ c s) ≡ true
    → (is_space (code c) ≡ false) × (is_solid s ≡ true)
unfolding is_solid
solid-parts c s h = (ground arith, ground arith)

trim_end_solid : (s : String) → is_solid s ≡ true → trim_end s ≡ s
unfolding trim_end
trim_end_solid String.[] h = refl
trim_end_solid (String.◌∷◌ c s) h =
    let (solid, rest) = solid-parts c s h in rw (solid, trim_end_solid s rest) refl

not_line_end : (c : ℕ) → is_space c ≡ false → is_line_end c ≡ false
unfolding is_space
not_line_end c h = ground arith

one_line : (s : String) → is_solid s ≡ true → has_line_end s ≡ false
unfolding has_line_end
one_line String.[] h = refl
one_line (String.◌∷◌ c s) h =
    let (solid, rest) = solid-parts c s h in rw (not_line_end (code c) solid, one_line s rest) refl

after_word-append :
    (word : List ℕ) (s t r : String)
    → after_word word s ≡ some r
    → after_word word (s ++ t) ≡ some (r ++ t)
unfolding after_word
after_word-append [] s t r h = let same_text : s ≡ r = cc in rw same_text refl
after_word-append (w ∷ word) String.[] t r h = cc
after_word-append (w ∷ word) (String.◌∷◌ c s) t r h =
    rw (append.cons c s t) (ground (arith, after_word-append word s t r))

key_read :
    (c : Char) (s : String)
    → is_solid (String.◌∷◌ c s) ≡ true
    → bearer_key (some ("Bearer " ++ String.◌∷◌ c s)) ≡ some (String.◌∷◌ c s)
unfolding bearer_key after_word skip_spaces trim has_line_end
key_read c s h =
    let word = after_word-append bearer "Bearer " (String.◌∷◌ c s) " " refl in
    let (solid, rest) = solid-parts c s h in
    let line = one_line (String.◌∷◌ c s) h in
    let spaced : " " ++ String.◌∷◌ c s ≡ String.◌∷◌ " " (String.◌∷◌ c s) =
      append.cons " " "" (String.◌∷◌ c s) ∙ ap (String.◌∷◌ " ") (append.nil (String.◌∷◌ c s)) in
    rw (bearer_key, word, spaced, solid, line, trim_end_solid s rest) (rw solid refl)

-- The guard passes a key without white space, in a header of the bearer's form, to the
-- authentication as it is.
guard_passes :
    (hash : String → String) (c : Char) (s : String) (db : Db)
    → is_solid (String.◌∷◌ c s) ≡ true
    → can_activate hash (some ("Bearer " ++ String.◌∷◌ c s)) db
      ≡ authenticate hash (String.◌∷◌ c s) db
unfolding can_activate
guard_passes hash c s db h = rw (key_read c s h) refl
