-- ===== src/Tests/Downloads.antt =====
-- Instances of the theorems on the downloads of files.
use achflow.Prelude.{ℕ, ◌≡◌, refl, some, List, All}
use achflow.Schema.{AchFile, ok}
use achflow.Nacha.Generator.{eligible_payments}
use achflow.Nacha.Text.{Units, utf16}
use achflow.Nacha.Records.{nacha_lines}
use achflow.Files.Rendering.{Exported, render_nacha}
use achflow.Files.Downloads.{download}
use achflow.Files.Exports.{download-generate}
use achflow.Files.Scope.{IsOwn, download-IsOwn}
use achflow.Tests.Sample.{merchant}
use achflow.Tests.Exports.{runs, file, validated_store, validated_store-WellFormed, after_export}

abbrev digits_of : ℕ → Units
digits_of day = utf16 "700102"

download-generate_example :
    (lines : List Units) × (nacha_lines merchant
        (utf16 "700102")
        (eligible_payments 1 validated_store)
      ≡ some lines)
    × (download digits_of (some 1) 100 after_export ≡ ok (lines, after_export))
unfolding runs
download-generate_example =
    download-generate digits_of (some 1) 100000000 validated_store after_export file merchant
      validated_store-WellFormed (refl, (refl, tt)) refl refl refl

-- The lines of the file.
served :
    (lines : List Units) × (download digits_of (some 1) 100 after_export ≡ ok (lines, after_export))
unfolding runs
served =
    let (lines, made, run) =
      download-generate digits_of (some 1) 100000000 validated_store after_export file merchant
        validated_store-WellFormed (refl, (refl, tt)) refl refl refl in
    (lines, run)

download-IsOwn_example :
    (f : AchFile) × (rows : List Exported) × (f.id ≡ 100)
    × (f.company_id ≡ 1)
    × All (IsOwn 1 100) rows
    × (render_nacha rows (utf16 "700102") ≡ some served.0)
download-IsOwn_example = download-IsOwn digits_of 1 100 after_export after_export served.0 served.1
