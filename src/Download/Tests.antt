-- ===== src/Download/Tests.antt =====
-- File downloads at a concrete file.
use kdsoap.Prelude.{
  ℕ, zero, suc, ◌^◌, ◌<◌, Text, [], ◌∷◌, some, ◌≡◌, refl, true, arith, pos, length, codes, take,
  drop, subst, split, trimmed, starts_with, eq_text, to_int32,
}
use kdsoap.Headers.{Headers, find}
use kdsoap.Ranges.{determine_file_ranges, parse_spec}
use kdsoap.Examples.{qt, number}
use kdsoap.Download.{Device, handle_file_download, write_range}
use kdsoap.Download.Copying.{IsSound, write_range-eq}
use kdsoap.Download.Answer.{Announces, handle_file_download-Announces}

-- A file of 120 bytes whose device reads three bytes at a time.
abbrev bytes : ℕ → Text
bytes zero = []
bytes (suc n) = b'x' ∷ bytes n

abbrev file : Device
file = record { content = bytes 120; can_open = true; read_size = λ p m. 3 }

file-IsSound : IsSound file
file-IsSound p m h k = omega arith

write_range-eq_example : write_range file (10, 19) ≡ take 10 (drop 10 (bytes 120))
write_range-eq_example = write_range-eq file 10 19 file-IsSound

abbrev two_ranges : Headers
two_ranges = (codes "range", codes "bytes=0-9,100-") ∷ []

file_facts : (f : Device) → some file ≡ some f → IsSound f × (length f.content < 2 ^ 31)
file_facts f e =
    subst (λ g. IsSound g × (length g.content < 2 ^ 31)) (same f e) (file-IsSound, omega arith)
  where
    same : (f : Device) → some file ≡ some f → file ≡ f
    same f e = cc e

two_parts :
    length (handle_file_download qt two_ranges (some file) (codes "text/plain") [] (codes "id")).1
    ≡ 201
unfolding handle_file_download determine_file_ranges parse_spec split trimmed find starts_with
    eq_text to_int32
two_parts = refl

handle_file_download-Announces_example :
    let (head, body) =
      handle_file_download qt two_ranges (some file) (codes "text/plain") [] (codes "id") in
    Announces head (number (pos (length body)))
handle_file_download-Announces_example =
    handle_file_download-Announces qt two_ranges (some file) (codes "text/plain") (codes "id") []
      refl file_facts (omega (arith, two_parts))
