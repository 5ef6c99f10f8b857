-- ===== src/Protocol/Metadata/RoundTrip.antt =====
-- The receiver finds the paths that the sender wrote.
use shmipc_cpp.Common.{
  ℕ, ◌+◌, ◌%◌, ◌^◌, ◌<◌, ◌≡◌, refl, ap, ◌∙◌, sym, arith, List, [], ◌++◌, length, drop,
  length-append, take-length, drop-length, leb, true, some,
}
use mathlib.Core.List.{append-nil, append_assoc}
use shmipc_cpp.Protocol.Event.{
  EventType, header_size, event_length, version, msg_type, encode, store_be_u16, store_be_u32,
  load_be_u16,
}
use shmipc_cpp.Protocol.Event.Decode.{be_u16, encode_lem}
use shmipc_cpp.Protocol.Metadata.{generate_shm_metadata, extract_shm_metadata, part}

-- A part that stands in the middle.
part-append :
    (xs ys zs body : List ℕ) (a n : ℕ)
    → body ≡ xs ++ (ys ++ zs)
    → a ≡ length xs
    → n ≡ length ys
    → part body a n ≡ some ys
part-append xs ys zs body a n e p q =
    let inside : leb (length xs + length ys) (length (xs ++ (ys ++ zs))) ≡ true =
      ground (arith, length-append xs (ys ++ zs), length-append ys zs) in
    rw (e, p, q, inside, drop-length xs (ys ++ zs), take-length ys zs) refl

length-encode : (len v : ℕ) (t : EventType) → length (encode len v t) ≡ 8
unfolding encode store_be_u16 store_be_u32
length-encode len v t = refl

drop-encode : (len v : ℕ) (t : EventType) (rest : List ℕ) → drop 8 (encode len v t ++ rest) ≡ rest
unfolding encode store_be_u16 store_be_u32
drop-encode len v t rest = refl

module _ (q b : List ℕ) (q_fits : length q < 2 ^ 16) (b_fits : length b < 2 ^ 16) where
  abbrev len₁ : List ℕ
  len₁ = store_be_u16 (length q % 2 ^ 16)

  abbrev len₂ : List ℕ
  len₂ = store_be_u16 (length b % 2 ^ 16)

  abbrev body : List ℕ
  body = len₁ ++ (q ++ (len₂ ++ b))

  length_of : (n : ℕ) → n < 2 ^ 16 → load_be_u16 (store_be_u16 (n % 2 ^ 16)) 0 ≡ n
  unfolding load_be_u16 store_be_u16
  length_of n h = be_u16 (n % 2 ^ 16) (omega arith) ∙ omega arith

  length-len : (n : ℕ) → length (store_be_u16 n) ≡ 2
  unfolding store_be_u16
  length-len n = refl

  part₂ : part body 2 (length q) ≡ some q
  part₂ = part-append len₁ q (len₂ ++ b) body 2 (length q) refl (sym (length-len _)) refl

  part₃ : part body (2 + length q) 2 ≡ some len₂
  part₃ =
      part-append (len₁ ++ q) len₂ b body (2 + length q) 2 (sym (append_assoc len₁ q (len₂ ++ b)))
        (omega (arith, length-append len₁ q, length-len (length q % 2 ^ 16))) (sym (length-len _))

  part₄ : part body (2 + length q + 2) (length b) ≡ some b
  part₄ =
      part-append (len₁ ++ (q ++ len₂)) b [] body (2 + length q + 2) (length b) split
        (omega (
          arith,
          length-append len₁ (q ++ len₂),
          length-append q len₂,
          length-len (length q % 2 ^ 16),
          length-len (length b % 2 ^ 16),
        ))
        refl
    where
      split : body ≡ (len₁ ++ (q ++ len₂)) ++ (b ++ [])
      split =
          ap (λ (l : List ℕ). len₁ ++ l) (sym (append_assoc q len₂ b))
          ∙ sym (append_assoc len₁ (q ++ len₂) b)
          ∙ ap (λ (l : List ℕ). (len₁ ++ (q ++ len₂)) ++ l) (sym (append-nil b))

  length-body : length body ≡ length q + length b + 4
  length-body = omega (
    arith,
    length-append len₁ (q ++ (len₂ ++ b)),
    length-append q (len₂ ++ b),
    length-append len₂ b,
    length-len (length q % 2 ^ 16),
    length-len (length b % 2 ^ 16),
  )

  extract-body : extract_shm_metadata body ≡ some (b, q)
  unfolding extract_shm_metadata
  extract-body =
      rw
        (
          part-append [] len₁ (q ++ (len₂ ++ b)) body 0 2 refl refl (sym (length-len _)),
          length_of (length q) q_fits,
          part₂,
          part₃,
          length_of (length b) b_fits,
          part₄,
        )
        refl

-- For paths shorter than 2 ^ 16 bytes: the header of the message says its whole length, the
-- version and the type that were asked for, and the body behind the header gives back both paths.
pub metadata_lem :
    (t : EventType) (buffer_path queue_path : List ℕ) (v : ℕ)
    → length buffer_path < 2 ^ 16
    → length queue_path < 2 ^ 16
    → let sent = generate_shm_metadata t buffer_path queue_path v in
      (event_length sent ≡ length sent)
      × (version sent ≡ v)
      × (msg_type sent ≡ t)
      × (extract_shm_metadata (drop header_size sent) ≡ some (buffer_path, queue_path))
unfolding generate_shm_metadata
metadata_lem t b q v b_fits q_fits =
    let size = header_size + 2 + length b + 2 + length q in
    let (len, _, ver, ty) = encode_lem (size % 2 ^ 32) v t (body q b q_fits b_fits) (omega arith) in
    (
      len
          ∙ omega (
            arith,
            length-append (encode (size % 2 ^ 32) v t) (body q b q_fits b_fits),
            length-encode (size % 2 ^ 32) v t,
            length-body q b q_fits b_fits,
          ),
      ver,
      ty,
      ap extract_shm_metadata (drop-encode (size % 2 ^ 32) v t (body q b q_fits b_fits))
          ∙ extract-body q b q_fits b_fits,
    )
