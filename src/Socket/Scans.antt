-- ===== src/Socket/Scans.antt =====
-- What a round of the loop over the chunks comes to, and the chunks found before the loop goes on.
use kdsoap.Prelude.{Text, List, [], ◌∷◌, arith, inl, inr, ◌⊎◌, ◌≡◌, refl, ℤ}
use kdsoap.Socket.{
  ChunkStep, incomplete, bad_size, last_chunk, next_chunk, Scan, scan_wait, scan_bad, scan_over,
  scan_diverged, prepend,
}

pub ChunkStep-cases :
    (r : ChunkStep)
    → (r ≡ incomplete)
      ⊎ (r ≡ bad_size)
      ⊎ ((rest : Text) × (r ≡ last_chunk rest))
      ⊎ ((c : Text) × (next : ℤ) × (r ≡ next_chunk c next))
ChunkStep-cases incomplete = inl refl
ChunkStep-cases bad_size = inr (inl refl)
ChunkStep-cases (last_chunk rest) = inr (inr (inl (rest, refl)))
ChunkStep-cases (next_chunk c next) = inr (inr (inr (c, next, refl)))

-- The chunks found before the loop goes on.
abbrev pub prepends : List Text → Scan → Scan
prepends [] r = r
prepends (c ∷ cs) r = prepend c (prepends cs r)

pub prepend-eq-diverged : (c : Text) (r : Scan) → prepend c r ≡ scan_diverged → r ≡ scan_diverged
unfolding prepend
prepend-eq-diverged c (scan_wait cs start) e = cc
prepend-eq-diverged c (scan_bad cs start) e = cc
prepend-eq-diverged c (scan_over cs buf start) e = cc
prepend-eq-diverged c scan_diverged e = refl

pub prepend-eq-wait :
    (c : Text) (r : Scan) (cs : List Text) (start : ℤ)
    → prepend c r ≡ scan_wait cs start
    → (ds : List Text) × (cs ≡ c ∷ ds) × (r ≡ scan_wait ds start)
unfolding prepend
prepend-eq-wait c (scan_wait ds start') cs start e = (ds, ground arith, ground arith)
prepend-eq-wait c (scan_bad ds start') cs start e = cc
prepend-eq-wait c (scan_over ds buf start') cs start e = cc
prepend-eq-wait c scan_diverged cs start e = cc

pub prepend-eq-over :
    (c : Text) (r : Scan) (cs : List Text) (buf : Text) (start : ℤ)
    → prepend c r ≡ scan_over cs buf start
    → (ds : List Text) × (cs ≡ c ∷ ds) × (r ≡ scan_over ds buf start)
unfolding prepend
prepend-eq-over c (scan_wait ds start') cs buf start e = cc
prepend-eq-over c (scan_bad ds start') cs buf start e = cc
prepend-eq-over c (scan_over ds buf' start') cs buf start e = (ds, ground arith, ground arith)
prepend-eq-over c scan_diverged cs buf start e = cc

pub no_chunks : (r : Scan) → r ≡ prepends [] r
no_chunks r = refl
