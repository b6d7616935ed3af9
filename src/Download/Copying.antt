-- ===== src/Download/Copying.antt =====
-- The loops that copy a file to the socket.
use kdsoap.Prelude.{
  ℕ, zero, suc, ◌+◌, ◌-◌, ◌≤◌, ◌<◌, Text, [], ◌++◌, Bool-cases, arith, inl, inr, ◌≡◌, sym, ◌∙◌, ap,
  ap₂, true, ◌||◌, leb, ◌==◌, length, take, drop, min, length-take, length-drop, take-nil, drop_all,
  take-length-take, leb→le, take-drop, drop-drop, take-append-drop,
}
use kdsoap.Download.{Device, read, copy, copy_all, write_range, block_size}

-- A device that reads at least a byte before its end.
abbrev pub IsSound : Device → Type 0
IsSound d = (p m : ℕ) → p < length d.content → 0 < m → 0 < d.read_size p m

-- A read gives some bytes, at most m, of what stands at p.
length-read :
    (d : Device) (p m : ℕ)
    → length (read d p m) ≡ min (min (d.read_size p m) m) (length d.content - p)
unfolding read
length-read d p m = length-take _ _ ∙ ap (min (min (d.read_size p m) m)) (length-drop p d.content)

read-eq : (d : Device) (p m : ℕ) → read d p m ≡ take (length (read d p m)) (drop p d.content)
unfolding read
read-eq d p m = take-length-take _ (drop p d.content)

read_some :
    (d : Device) (p m : ℕ) → IsSound d → p < length d.content → 0 < m → 0 < length (read d p m)
read_some d p m s h k = omega (arith, length-read d p m, s p m h k)

-- What one round and the rest of the loop write.
round :
    (d : Device) (p m left : ℕ)
    → length (read d p m) ≤ left
    → read d p m ++ take (left - length (read d p m)) (drop (p + length (read d p m)) d.content)
      ≡ take left (drop p d.content)
round d p m left h =
    let n = length (read d p m) in
    let e : n + (left - n) ≡ left = omega arith in
    ap₂ (λ a b. a ++ take (left - n) b) (read-eq d p m) (sym (drop-drop p n d.content))
    ∙ take-drop n (left - n) (drop p d.content)
    ∙ ap (λ k. take k (drop p d.content)) e

nothing_left :
    (d : Device) (p left : ℕ)
    → (leb (length d.content) p || left == 0) ≡ true
    → take left (drop p d.content) ≡ []
nothing_left d p left h = elim (Bool-cases (leb (length d.content) p)) [
  | inl e ↦ ap (take left) (drop_all p d.content (leb→le _ _ e)) ∙ take-nil left
  | inr e ↦ let k : left ≡ 0 = ground arith in rw k
]

copy-eq :
    (fuel : ℕ) (d : Device) (p left : ℕ)
    → IsSound d
    → left ≤ fuel
    → copy fuel d p left ≡ take left (drop p d.content)
unfolding copy
copy-eq zero d p left s h = let e : left ≡ 0 = omega arith in rw e
copy-eq (suc fuel) d p left s h =
    let n = length (read d p (min left block_size)) in
    elim (Bool-cases (leb (length d.content) p || left == 0)) [
      | inl e ↦ ground (arith, nothing_left d p left)
      | inr e ↦
          let more : 0 < n = read_some d p (min left block_size) s (ground arith) (ground arith) in
          let fits : n ≤ left = omega (arith, length-read d p (min left block_size)) in
          ground (arith, copy-eq fuel d (p + n) (left - n) s, round d p (min left block_size) left)
    ]

-- The loop that writes a range writes the bytes of the file from the first to the last, whatever
-- the sizes of the reads, where each read before the end gives a byte at least.
pub write_range-eq :
    (d : Device) (first last : ℕ)
    → IsSound d
    → write_range d (first, last) ≡ take (last + 1 - first) (drop first d.content)
unfolding write_range
write_range-eq d first last s =
    copy-eq (last + 1 - first) d first (last + 1 - first) s (omega arith)

round_all :
    (d : Device) (p m : ℕ)
    → read d p m ++ drop (p + length (read d p m)) d.content ≡ drop p d.content
round_all d p m =
    let n = length (read d p m) in
    ap₂ (λ (a b : Text). a ++ b) (read-eq d p m) (sym (drop-drop p n d.content))
    ∙ take-append-drop n (drop p d.content)

copy_all-eq :
    (fuel : ℕ) (d : Device) (p : ℕ)
    → IsSound d
    → length d.content ≤ p + fuel
    → copy_all fuel d p ≡ drop p d.content
unfolding copy_all
copy_all-eq zero d p s h = sym (drop_all p d.content (omega arith))
copy_all-eq (suc fuel) d p s h =
    let n = length (read d p block_size) in
    elim (Bool-cases (leb (length d.content) p)) [
      | inl e ↦ ground (arith, drop_all p d.content (leb→le _ _ e))
      | inr e ↦
          let more : 0 < n = read_some d p block_size s (ground arith) (omega arith) in
          ground (arith, copy_all-eq fuel d (p + n) s, round_all d p block_size)
    ]

-- The loop over the whole file writes the content of the file, whatever the sizes of the reads,
-- where each read before the end gives a byte at least.
pub copy_all_lem : (d : Device) → IsSound d → copy_all (length d.content) d 0 ≡ d.content
copy_all_lem d s = copy_all-eq (length d.content) d 0 s (omega arith)
