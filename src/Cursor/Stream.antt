-- ===== src/Cursor/Stream.antt =====
-- The messages of one payload at a reassembler: in any order, lost, repeated, or too late.
use fly_ruler_proto.Cursor.{
  key_eq, max_cursor_payload_bytes, CursorResult, done, CursorReassembler, payload_pieces,
  make_chunk, number_chunks, encode_cursor_chunks, push,
}
use fly_ruler_proto.Base.{
  ℕ, suc, ◌+◌, ◌≤◌, ◌≡◌, refl, sym, subst, ◌⊎◌, inl, inr, Option, none, some, List, [], ◌∷◌, arith,
  length, get_elem?, All, Any, ap, ◌∙◌,
}
use fly_ruler_proto.Base.Int.{ℤ}
use fly_ruler_proto.Pb.{CursorChunk, server_push, Message}
use fly_ruler_proto.Cursor.RoundTrip.{IsFaithful, IsGood, push-piece}

abbrev pub new_reassembler : CursorReassembler
new_reassembler = record { partial = []; expired_payloads = 0 }

abbrev pub chunk_message : CursorChunk → Message
chunk_message chunk = record { envelope = some (server_push (some chunk)) }

-- The results of pushing chunks one after the other.
unfoldable pub push_all :
    List ((ℕ × ℕ) × CursorChunk) → CursorReassembler → List (CursorResult (Option (List ℕ)))
push_all [] r = []
push_all ((clock, chunk) ∷ arrivals) r =
    let (r', result) = push clock chunk r in result ∷ push_all arrivals r'

number_chunks-member :
    (epoch : List ℕ) (kind : ℤ) (sequence : ℕ) (payload : List ℕ) (start : ℕ) (ps : List (List ℕ))
    (chunk : CursorChunk)
    → Any (λ m. m ≡ chunk_message chunk) (number_chunks epoch kind sequence payload start ps)
    → (i : ℕ) × (bytes : List ℕ) × (get_elem? ps i ≡ some bytes)
      × (chunk ≡ make_chunk epoch kind sequence payload (start + i) bytes)
number_chunks-member epoch kind sequence payload start [] chunk h = absurd h
number_chunks-member epoch kind sequence payload start (bytes ∷ ps) chunk (inl e) =
    (0, bytes, refl, ground arith)
number_chunks-member epoch kind sequence payload start (b ∷ ps) chunk (inr h) =
    let (i, bytes, here, e) =
      number_chunks-member epoch kind sequence payload (start + 1) ps chunk h in
    (suc i, bytes, here, ground (arith, e))

push_all-piece :
    (epoch : List ℕ) (kind : ℤ) (sequence : ℕ) (payload : List ℕ)
    → 1 ≤ length payload
    → length payload ≤ max_cursor_payload_bytes
    → (arrivals : List ((ℕ × ℕ) × CursorChunk)) (r : CursorReassembler)
    → All
        (λ a.
          Any
            (λ m. m ≡ chunk_message a.1)
            (number_chunks epoch kind sequence payload 0 (payload_pieces payload)))
        arrivals
    → IsFaithful payload (kind, sequence) r.partial
    → All (λ o. (o ≡ done none) ⊎ (o ≡ done (some payload))) (push_all arrivals r)
unfolding push_all
push_all-piece epoch kind sequence payload low high [] r none_left h = tt
push_all-piece epoch kind sequence payload low high ((clock, chunk) ∷ arrivals) r (own, others) h =
    let (i, bytes, here, e) =
      number_chunks-member epoch kind sequence payload 0 (payload_pieces payload) chunk own in
    let start : ◌≡◌ {A = ℕ} (0 + i) i = omega arith in
    let numbered = ap (λ n. make_chunk epoch kind sequence payload n bytes) start in
    let (good, kept) =
      subst (λ c. IsGood payload (kind, sequence) (push clock c r)) (sym (e ∙ numbered))
        (push-piece payload low high clock epoch kind sequence i bytes r here h) in
    (good, push_all-piece epoch kind sequence payload low high arrivals _ others kept)

-- When a payload is encoded into messages and any chunks of these messages reach a new
-- reassembler, in any order, lost or repeated, at any readings of the clock and so also after an
-- expiry: each of them gives nothing yet or exactly the payload, and none is an error.
pub encode_cursor_chunks-push_all :
    (epoch : List ℕ) (kind : ℤ) (sequence : ℕ) (payload : List ℕ) (messages : List Message)
    (arrivals : List ((ℕ × ℕ) × CursorChunk))
    → encode_cursor_chunks epoch kind sequence payload ≡ done messages
    → All (λ a. Any (λ m. m ≡ chunk_message a.1) messages) arrivals
    → All (λ o. (o ≡ done none) ⊎ (o ≡ done (some payload))) (push_all arrivals new_reassembler)
unfolding encode_cursor_chunks
encode_cursor_chunks-push_all epoch kind sequence payload messages arrivals e own =
    let same : number_chunks epoch kind sequence payload 0 (payload_pieces payload) ≡ messages =
      ground arith in
    push_all-piece epoch kind sequence payload (ground arith) (ground arith) arrivals
      new_reassembler
      (subst (λ ms. All (λ a. Any (λ m. m ≡ chunk_message a.1) ms) arrivals) (sym same) own) tt
