-- ===== src/Buffer/Linked/Agree.antt =====
-- How LinkedBuffer::peek, discard and read_bytes (src/buffer/linked.cpp) agree.
use shmipc_cpp.Common.{
  ℕ, zero, suc, ◌≤◌, ◌<◌, ◌≡◌, ◌⊎◌, refl, ap, ◌∙◌, sym, arith, true, false, ◌==◌, ltb, inl, inr,
  length, some,
}
use native.Mathlib.Decide.{dec_lt}
use shmipc_cpp.Shm.{Shm}
use shmipc_cpp.Error.{Result, ok, err, not_enough_data}
use shmipc_cpp.Buffer.Manager.{BufferManager}
use shmipc_cpp.Buffer.Linked.{LinkedBuffer}
use shmipc_cpp.Buffer.Linked.Reclaim.{Reclaim, unread}
use shmipc_cpp.Buffer.Linked.Read.{Buf, span, read_bytes, peek, discard}
use shmipc_cpp.Buffer.Linked.Bytes.{IsSound, read_bytes_lem}
use shmipc_cpp.Buffer.Linked.Peek.{peek_enough}
use shmipc_cpp.Buffer.Linked.Discard.{discard_enough}

module _ (bm : BufferManager) (r : Reclaim bm) where
  too_few :
      (b : LinkedBuffer) (size : ℕ) (m : Shm)
      → b.len < size
      → (read_bytes bm size b m ≡ some (err not_enough_data, b, m))
        × (peek size b m ≡ (err not_enough_data, b))
        × (discard bm size b m ≡ some (err not_enough_data, b, m))
  unfolding read_bytes peek discard
  too_few b zero m h = absurd (omega arith)
  too_few b (suc k) m h =
      let not_zero : (suc k == 0) ≡ false = ground arith in
      let short : ltb b.len (suc k) ≡ true = ground arith in
      simp (not_zero, short) (refl, refl, refl)

  -- The three operations of the reader agree, on a buffer whose length is that of its unread bytes
  -- and from a manager whose recycling keeps the bytes of other slices. With enough bytes, peek
  -- shows the bytes that read_bytes returns and changes neither the slices nor the length, and
  -- discard reports the size that it was given and leaves the same unread bytes as read_bytes,
  -- counted the same. With fewer, all three are the same error and change nothing.
  pub readers_agree :
      (b : LinkedBuffer) (size : ℕ) (m : Shm)
      → IsSound bm r b m
      → ((size ≤ b.len)
          × (seen : Buf) × (bp : LinkedBuffer) × (peek size b m ≡ (ok seen, bp))
          × (bp.slice_list ≡ b.slice_list)
          × (bp.len ≡ b.len)
          × (buf : Buf) × (br : LinkedBuffer) × (mr : Shm) × (read_bytes bm size b m
              ≡ some (ok buf, br, mr))
          × (bd : LinkedBuffer) × (md : Shm) × (discard bm size b m ≡ some (ok size, bd, md))
          × (span seen ≡ span buf)
          × (unread bd.slice_list.slices md ≡ unread br.slice_list.slices mr)
          × (bd.len ≡ br.len))
        ⊎ ((b.len < size)
            × (read_bytes bm size b m ≡ some (err not_enough_data, b, m))
            × (peek size b m ≡ (err not_enough_data, b))
            × (discard bm size b m ≡ some (err not_enough_data, b, m)))
  readers_agree b size m sound = elim (dec_lt b.len size) [
    | yes h ↦ let (e, f, g) = too_few b size m h in inr (h, e, f, g)
    | no h ↦
        let enough : size ≤ b.len = omega arith in
        let (seen, peeked, seen_is, same, len_p) = peek_enough bm r b size m sound enough in
        let (bd, md, discarded, sound_d, left_d) = discard_enough bm r b size m sound enough in
        elim (read_bytes_lem bm r b size m sound) [
          | inr short ↦ absurd (omega (arith, short.0))
          | inl found ↦
              let (_, (buf, br, mr, eq, buf_is, sound_r, left_r)) = found in
              inl (
                enough,
                seen,
                (peek size b m).1,
                ap (λ (x : Result Buf). (x, (peek size b m).1)) peeked,
                same,
                len_p,
                buf,
                br,
                mr,
                eq,
                bd,
                md,
                discarded,
                seen_is ∙ sym buf_is,
                left_d ∙ sym left_r,
                sound_d.len_is ∙ ap length (left_d ∙ sym left_r) ∙ sym sound_r.len_is,
              )
        ]
  ]
