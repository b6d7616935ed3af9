-- ===== src/Socket/Fuel.antt =====
-- The loop over the chunks ends, and it goes on where it stopped when more data comes.
use kdsoap.Prelude.{
  ℕ, zero, suc, ◌-◌, ◌<◌, Text, List, [], ◌++◌, arith, inl, inr, ◌⊎◌, ◌≡◌, ◌≢◌, refl, sym, subst,
  ◌∙◌, ap, ℤ, pos, negsuc, length,
}
use kdsoap.Platform.{Qt}
use kdsoap.Socket.{
  incomplete, bad_size, last_chunk, next_chunk, scan_wait, scan_bad, scan_over, scan_diverged,
  prepend, chunk_step, scan,
}
use kdsoap.Socket.Chunks.{
  HasPlainSizes, HasPlainSizes-prefix, chunk_step-next, chunk_step-last, chunk_step-advance,
}
use kdsoap.Socket.Scans.{
  ChunkStep-cases, prepends, prepend-eq-diverged, prepend-eq-wait, prepend-eq-over, no_chunks,
}

module _ (qt : Qt) where
  -- The loop over the chunks ends, from any non-negative m_chunkStart and on any buffer, within as
  -- many rounds as there are bytes ahead and one more, where no text before the end of a line is read
  -- as a size that is negative or does not fit in 32 bits with the length of the buffer.
  pub scan-ne-diverged :
      (fuel : ℕ) (buf : Text) (start : ℕ)
      → HasPlainSizes qt buf
      → length buf - start < fuel
      → scan qt fuel buf (pos start) ≢ scan_diverged
  unfolding scan
  scan-ne-diverged zero buf start sizes h e = elim h [ ]
  scan-ne-diverged (suc fuel) buf start sizes h e =
      elim (ChunkStep-cases (chunk_step qt buf start)) [
        | inl p ↦ cc (rw (p, scan) at e)
        | inr (inl p) ↦ cc (rw (p, scan) at e)
        | inr (inr (inl (rest, p))) ↦ cc (rw (p, scan) at e)
        | inr (inr (inr (c, next, p))) ↦
            let (n, same, forward, inside) = chunk_step-advance qt buf sizes start c next p in
            scan-ne-diverged fuel buf n sizes (omega arith)
              (rw same at (prepend-eq-diverged c (scan qt fuel buf next) (rw (p, scan) at e)))
      ]

  -- So the number of rounds allowed does not matter from there on.
  pub scan_fuel :
      (f g : ℕ) (buf : Text) (start : ℕ)
      → HasPlainSizes qt buf
      → length buf - start < f
      → length buf - start < g
      → scan qt f buf (pos start) ≡ scan qt g buf (pos start)
  unfolding scan
  scan_fuel zero g buf start sizes h k = elim h [ ]
  scan_fuel (suc f) zero buf start sizes h k = elim k [ ]
  scan_fuel (suc f) (suc g) buf start sizes h k = elim (ChunkStep-cases (chunk_step qt buf start)) [
    | inl p ↦ rw (p, scan)
    | inr (inl p) ↦ rw (p, scan)
    | inr (inr (inl (rest, p))) ↦ rw (p, scan)
    | inr (inr (inr (c, next, p))) ↦
        let (n, same, forward, inside) = chunk_step-advance qt buf sizes start c next p in
        rw (p, scan)
          (rw same (ap (prepend c) (scan_fuel f g buf n sizes (omega arith) (omega arith))))
  ]

  out_of_fuel :
      (buf : Text) (start : ℕ) (cs : List Text) (stop : ℤ)
      → scan qt zero buf (pos start) ≡ scan_wait cs stop
      → ⊥
  unfolding scan
  out_of_fuel buf start cs stop e = cc

  out_of_fuel_over :
      (buf : Text) (start : ℕ) (cs : List Text) (rest : Text) (stop : ℤ)
      → scan qt zero buf (pos start) ≡ scan_over cs rest stop
      → ⊥
  unfolding scan
  out_of_fuel_over buf start cs rest stop e = cc

  scan_next :
      (fuel : ℕ) (buf : Text) (start : ℕ) (c : Text) (next : ℤ)
      → chunk_step qt buf start ≡ next_chunk c next
      → scan qt (suc fuel) buf (pos start) ≡ prepend c (scan qt fuel buf next)
  unfolding scan
  scan_next fuel buf start c next p = rw (p, scan)

  scan_last :
      (fuel : ℕ) (buf : Text) (start : ℕ) (rest : Text)
      → chunk_step qt buf start ≡ last_chunk rest
      → scan qt (suc fuel) buf (pos start) ≡ scan_over [] rest (negsuc 0)
  unfolding scan
  scan_last fuel buf start rest p = rw (p, scan)

  scan_incomplete :
      (fuel : ℕ) (buf : Text) (start : ℕ)
      → chunk_step qt buf start ≡ incomplete
      → scan qt (suc fuel) buf (pos start) ≡ scan_wait [] (pos start)
  unfolding scan
  scan_incomplete fuel buf start p = rw (p, scan)

  scan_bad_size :
      (fuel : ℕ) (buf : Text) (start : ℕ)
      → chunk_step qt buf start ≡ bad_size
      → scan qt (suc fuel) buf (pos start) ≡ scan_bad [] (pos start)
  unfolding scan
  scan_bad_size fuel buf start p = rw (p, scan)

  scan_behind :
      (fuel : ℕ) (buf : Text) (k : ℕ)
      → 0 < fuel
      → scan qt fuel buf (negsuc k) ≡ scan_over [] buf (negsuc k)
  unfolding scan
  scan_behind zero buf k h = absurd (omega arith)
  scan_behind (suc fuel) buf k h = refl

  scan_behind-cases :
      (fuel : ℕ) (buf : Text) (k : ℕ)
      → (scan qt fuel buf (negsuc k) ≡ scan_diverged)
        ⊎ (scan qt fuel buf (negsuc k) ≡ scan_over [] buf (negsuc k))
  unfolding scan
  scan_behind-cases zero buf k = inl refl
  scan_behind-cases (suc fuel) buf k = inr refl

  -- With enough fuel, a round is a round for the same fuel.
  scan_next_same :
      (fuel : ℕ) (buf : Text) (start : ℕ) (c : Text) (n : ℕ)
      → HasPlainSizes qt buf
      → length buf < fuel
      → chunk_step qt buf start ≡ next_chunk c (pos n)
      → scan qt fuel buf (pos start) ≡ prepend c (scan qt fuel buf (pos n))
  scan_next_same zero buf start c n sizes h p = elim h [ ]
  scan_next_same (suc fuel) buf start c n sizes h p =
      let (m, same, forward, inside) = chunk_step-advance qt buf sizes start c (pos n) p in
      let e : n ≡ m = ground arith in
      scan_next fuel buf start c (pos n) p
      ∙ ap (prepend c) (scan_fuel fuel (suc fuel) buf n sizes (omega arith) (omega arith))

  -- Where the loop waits for data, it goes on when data comes.
  pub scan-append_wait :
      (f g : ℕ) (buf t : Text) (start : ℕ) (cs : List Text) (stop : ℤ)
      → HasPlainSizes qt (buf ++ t)
      → length (buf ++ t) < g
      → scan qt f buf (pos start) ≡ scan_wait cs stop
      → (n : ℕ) × (stop ≡ pos n)
        × (scan qt g (buf ++ t) (pos start) ≡ prepends cs (scan qt g (buf ++ t) (pos n)))
  scan-append_wait zero g buf t start cs stop sizes k e = absurd (out_of_fuel buf start cs stop e)
  scan-append_wait (suc f) g buf t start cs stop sizes k e =
      elim (ChunkStep-cases (chunk_step qt buf start)) [
        | inl p ↦
            let w = sym (scan_incomplete f buf start p) ∙ e in
            let none_found : [] ≡ cs = ground arith in
            (start, ground arith, rw (← none_found) (no_chunks _))
        | inr (inl p) ↦ absurd (cc (sym (scan_bad_size f buf start p) ∙ e))
        | inr (inr (inl (rest, p))) ↦ absurd (cc (sym (scan_last f buf start rest p) ∙ e))
        | inr (inr (inr (c, next, p))) ↦
            let (m, same, forward, inside) =
              chunk_step-advance qt buf (HasPlainSizes-prefix qt buf t sizes) start c next p in
            let (ds, more, waits) =
              prepend-eq-wait c (scan qt f buf next) cs stop
                (sym (scan_next f buf start c next p) ∙ e) in
            let (n, stops, goes_on) =
              scan-append_wait f g buf t m ds stop sizes k (rw same at waits) in
            (
              n,
              stops,
              rw more (
                  scan_next_same g (buf ++ t) start c m sizes k (
                    rw (← same) (
                      chunk_step-next qt buf (HasPlainSizes-prefix qt buf t sizes) t start c next
                        p))
                  ∙ ap (prepend c) goes_on),
            )
      ]

  -- Where the loop has come to the last chunk, it does so when more data comes.
  pub scan-append_over :
      (f g : ℕ) (buf t : Text) (start : ℕ) (cs : List Text) (rest : Text) (stop : ℤ)
      → HasPlainSizes qt (buf ++ t)
      → length (buf ++ t) < g
      → scan qt f buf (pos start) ≡ scan_over cs rest stop
      → (stop ≡ negsuc 0) × (scan qt g (buf ++ t) (pos start) ≡ scan_over cs (rest ++ t) stop)
  unfolding prepend
  scan-append_over zero g buf t start cs rest stop sizes k e =
      absurd (out_of_fuel_over buf start cs rest stop e)
  scan-append_over (suc f) zero buf t start cs rest stop sizes k e = elim k [ ]
  scan-append_over (suc f) (suc g) buf t start cs rest stop sizes k e =
      elim (ChunkStep-cases (chunk_step qt buf start)) [
        | inl p ↦ absurd (cc (sym (scan_incomplete f buf start p) ∙ e))
        | inr (inl p) ↦ absurd (cc (sym (scan_bad_size f buf start p) ∙ e))
        | inr (inr (inl (rest', p))) ↦
            let w = sym (scan_last f buf start rest' p) ∙ e in
            let none_found : [] ≡ cs = ground arith in
            let left : rest' ≡ rest = ground arith in
            let stops : stop ≡ negsuc 0 = ground arith in
            (
              stops,
              scan_last g (buf ++ t) start (rest' ++ t)
                    (chunk_step-last qt buf (HasPlainSizes-prefix qt buf t sizes) t start rest' p)
                  ∙ (λ i. scan_over (none_found i) (left i ++ t) (sym stops i)),
            )
        | inr (inr (inr (c, next, p))) ↦
            let (m, same, forward, inside) =
              chunk_step-advance qt buf (HasPlainSizes-prefix qt buf t sizes) start c next p in
            let (ds, more, over) =
              prepend-eq-over c (scan qt f buf next) cs rest stop
                (sym (scan_next f buf start c next p) ∙ e) in
            let (stops, goes_on) =
              scan-append_over f (suc g) buf t m ds rest stop sizes k (rw same at over) in
            (
              stops,
              scan_next_same (suc g) (buf ++ t) start c m sizes k (
                    rw (← same) (
                      chunk_step-next qt buf (HasPlainSizes-prefix qt buf t sizes) t start c next
                        p))
                  ∙ ap (prepend c) goes_on
                  ∙ (λ i. scan_over (sym more i) (rest ++ t) stop),
            )
      ]

  -- The same from any m_chunkStart, which is negative behind the last chunk.
  pub scan-append_wait_at :
      (f g : ℕ) (buf t : Text) (start : ℤ) (cs : List Text) (stop : ℤ)
      → HasPlainSizes qt (buf ++ t)
      → length (buf ++ t) < g
      → scan qt f buf start ≡ scan_wait cs stop
      → scan qt g (buf ++ t) start ≡ prepends cs (scan qt g (buf ++ t) stop)
  scan-append_wait_at f g buf t (pos start) cs stop sizes k e =
      let (n, stops, goes_on) = scan-append_wait f g buf t start cs stop sizes k e in
      goes_on ∙ ap (λ m. prepends cs (scan qt g (buf ++ t) m)) (sym stops)
  scan-append_wait_at f g buf t (negsuc j) cs stop sizes k e = elim (scan_behind-cases f buf j) [
    | inl p ↦ absurd (cc (sym p ∙ e))
    | inr p ↦ absurd (cc (sym p ∙ e))
  ]

  pub scan-append_over_at :
      (f g : ℕ) (buf t : Text) (start : ℤ) (cs : List Text) (rest : Text) (stop : ℤ)
      → HasPlainSizes qt (buf ++ t)
      → length (buf ++ t) < g
      → scan qt f buf start ≡ scan_over cs rest stop
      → (scan qt g (rest ++ t) stop ≡ scan_over [] (rest ++ t) stop)
        × (scan qt g (buf ++ t) start ≡ scan_over cs (rest ++ t) stop)
  scan-append_over_at f g buf t (pos start) cs rest stop sizes k e =
      let (stops, goes_on) = scan-append_over f g buf t start cs rest stop sizes k e in
      (
        ap (scan qt g (rest ++ t)) stops
            ∙ scan_behind g _ 0 (omega arith)
            ∙ ap (scan_over [] (rest ++ t)) (sym stops),
        goes_on,
      )
  scan-append_over_at f g buf t (negsuc j) cs rest stop sizes k e =
      elim (scan_behind-cases f buf j) [
        | inl p ↦ absurd (cc (sym p ∙ e))
        | inr p ↦
            let w = sym p ∙ e in
            let none_found : [] ≡ cs = cc w in
            let left : buf ≡ rest = cc w in
            let stops : negsuc j ≡ stop = cc w in
            (
              subst (λ m. scan qt g (rest ++ t) m ≡ scan_over [] (rest ++ t) m) stops
                  (scan_behind g (rest ++ t) j (omega arith)),
              scan_behind g (buf ++ t) j (omega arith)
                  ∙ (λ i. scan_over (none_found i) (left i ++ t) (stops i)),
            )
      ]
