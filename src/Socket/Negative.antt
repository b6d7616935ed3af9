-- ===== src/Socket/Negative.antt =====
-- The loop over the chunks of slotReadyRead, src/KDSoapServer/KDSoapServerSocket.cpp, on a chunk
-- size with a minus sign.
use kdsoap.Prelude.{
  ℕ, zero, suc, ◌+◌, ◌-◌, Text, some, arith, ◌≡◌, refl, ap, pos, negsuc, ◌+ℤ◌, leb_ℤ, false, ◌<◌,
  ◌^◌, wrap_int32-eq, take, drop, length,
}
use kdsoap.Platform.{Qt}
use kdsoap.Socket.{
  next_chunk, mid, next_eol, chunk_step, chunk_of_size, scan, scan_diverged, prepend,
}
use kdsoap.Socket.Chunks.{chunk_step-found, next_eol-found}

module _ (qt : Qt) where
  back_to_start :
      (buf : Text) (start : ℕ)
      → start < 2 ^ 31
      → next_eol buf start ≡ some (start + 2)
      → qt.to_int_hex (take 2 (drop start buf)) ≡ some (negsuc 5)
      → chunk_step qt buf start ≡ next_chunk (drop (start + 2 + 2) buf) (pos start)
  unfolding chunk_of_size mid
  back_to_start buf start small e f =
      let (_, room, _) = next_eol-found buf start (start + 2) e in
      let width : start + 2 - start ≡ 2 = omega arith in
      let back : pos (start + 2 + 2 + 2) +ℤ negsuc 5 ≡ pos start = ground arith in
      let same = wrap_int32-eq start small in
      let ahead : leb_ℤ (pos (length buf)) (pos start) ≡ false = ground arith in
      chunk_step-found qt buf start _ (start + 2) (negsuc 5) e (rw width f)
        (rw (back, same, ahead) refl)

  -- Where the line of a chunk's size is the two characters of a number that is read as -6, and
  -- m_chunkStart, an int, is at it, no number of rounds ends the loop over the chunks, whatever the
  -- buffer holds behind it.
  pub scan-eq-diverged :
      (buf : Text) (start fuel : ℕ)
      → start < 2 ^ 31
      → next_eol buf start ≡ some (start + 2)
      → qt.to_int_hex (take 2 (drop start buf)) ≡ some (negsuc 5)
      → scan qt fuel buf (pos start) ≡ scan_diverged
  unfolding scan prepend
  scan-eq-diverged buf start zero small e f = refl
  scan-eq-diverged buf start (suc fuel) small e f =
      rw (back_to_start buf start small e f, scan)
        (ap (prepend _) (scan-eq-diverged buf start fuel small e f))
