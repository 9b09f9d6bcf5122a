-- ===== src/Cursor/Complete.antt =====
-- All chunks of a payload, in order and at one time, give the payload.
use fly_ruler_proto.Cursor.Stream.{push_all, chunk_message, new_reassembler}
use fly_ruler_proto.Cursor.RoundTrip.{
  IsPartOf, IsFaithful, matches, index-small, retained, retain-IsFaithful, push-in_bounds,
  in_bounds, accept_chunk-piece, push-piece,
}
use fly_ruler_proto.Cursor.{
  key_eq, max_cursor_payload_bytes, checksum32, accept_chunk, CursorReassembler, payload_pieces,
  chunk_count, push, make_chunk, done, CursorChunk, number_chunks, encode_cursor_chunks,
  key_eqb_iff, PartialPayload, none_slots, set_slot, any_missing, retain,
}
use fly_ruler_proto.Base.{
  if◌then◌else◌, ℕ, ◌≡◌, refl, ap, Option, some, List, [], ◌∷◌, ◌++◌, arith, leb, length, get_elem?,
  ◌%◌, ◌≤◌, ◌^◌, unwrap_or, true, none, false, ◌⊎◌, ◌∙◌, subst, sym, Bool-cases, inr, inl, map,
  get_last?, ◌+◌, length-append, append_assoc,
}
use fly_ruler_proto.Base.Dict.{lookup, insert}
use fly_ruler_proto.Base.Int.{ℤ}
use fly_ruler_proto.Cursor.Pieces.{IsPart, none_slots-IsPart, length-pieces}

-- The slots after the first pieces came, before the others.
abbrev filled : List (List ℕ) → List (List ℕ) → List (Option (List ℕ))
filled [] rest = none_slots (length rest)
filled (p ∷ ps) rest = some p ∷ filled ps rest

filled-IsPart : (ps rest : List (List ℕ)) → IsPart (filled ps rest) (ps ++ rest)
filled-IsPart [] rest = none_slots-IsPart rest
filled-IsPart (p ∷ ps) rest = (refl, filled-IsPart ps rest)

set_slot-filled :
    (ps rest : List (List ℕ)) (p : List ℕ)
    → set_slot (length ps) p (filled ps (p ∷ rest)) ≡ filled (ps ++ p ∷ []) rest
set_slot-filled [] rest p = refl
set_slot-filled (q ∷ ps) rest p = ap (◌∷◌ (some q)) (set_slot-filled ps rest p)

any_missing-filled : (ps rest : List (List ℕ)) → any_missing (filled ps rest) ≡ leb 1 (length rest)
any_missing-filled [] [] = refl
any_missing-filled [] (p ∷ rest) = ground arith
any_missing-filled (q ∷ ps) rest = any_missing-filled ps rest

get_elem?-middle :
    (ps rest : List (List ℕ)) (p : List ℕ) → get_elem? (ps ++ p ∷ rest) (length ps) ≡ some p
get_elem?-middle [] rest p = refl
get_elem?-middle (q ∷ ps) rest p = get_elem?-middle ps rest p

lookup-retain-insert :
    (t : ℕ) (key : ℤ × ℕ) (v : PartialPayload) (m : List ((ℤ × ℕ) × PartialPayload))
    → v.created_at ≡ t
    → lookup key (retain t (insert key v m)) ≡ some v
unfolding lookup retain insert
lookup-retain-insert t key v [] e = ground (arith, key_eqb_iff key key)
lookup-retain-insert t key v ((k, w) ∷ m) e =
    ground (arith, key_eqb_iff key key, key_eqb_iff k key, lookup-retain-insert t key v m e)

-- What is kept of a payload since a time.
abbrev entry : List ℕ → ℕ → List (Option (List ℕ)) → PartialPayload
entry payload t slots = record {
  created_at = t;
  total_size = length payload % 2 ^ 32;
  checksum = checksum32 payload;
  chunks = slots;
}

module _ (payload : List ℕ) (some_bytes : 1 ≤ length payload)
    (not_many : length payload ≤ max_cursor_payload_bytes) (t : ℕ) (epoch : List ℕ) (kind : ℤ)
    (sequence : ℕ) where
  -- The reassembler goes on with these slots when the next chunk comes.
  abbrev IsKept : CursorReassembler → List (Option (List ℕ)) → Type 0
  IsKept r slots =
      unwrap_or (lookup (kind, sequence) (retain t r.partial))
        (entry payload t (none_slots (chunk_count payload % 2 ^ 32)))
      ≡ entry payload t slots

  accept_chunk-missing :
      (i : ℕ) (bytes : List ℕ) (p : PartialPayload) (r : CursorReassembler)
      → get_elem? (payload_pieces payload) i ≡ some bytes
      → IsPartOf payload p
      → any_missing (set_slot i bytes p.chunks) ≡ true
      → (accept_chunk (make_chunk epoch kind sequence payload i bytes) p r).0.partial
        ≡ insert (kind, sequence) (record p { chunks = set_slot i bytes p.chunks }) r.partial
  unfolding accept_chunk
  accept_chunk-missing i bytes p r here part missing =
      rw
        (
          matches payload some_bytes not_many epoch kind sequence i bytes p part,
          index-small payload some_bytes not_many i bytes here,
          missing,
        )
        refl

  push-next :
      (ps rest : List (List ℕ)) (p : List ℕ) (r : CursorReassembler)
      → payload_pieces payload ≡ ps ++ p ∷ rest
      → IsFaithful payload (kind, sequence) r.partial
      → IsKept r (filled ps (p ∷ rest))
      → ((push (t, t) (make_chunk epoch kind sequence payload (length ps) p) r).1
          ≡ (if leb 1 (length rest) then done none else done (some payload)))
        × ((leb 1 (length rest) ≡ false)
            ⊎ IsKept
                (push (t, t) (make_chunk epoch kind sequence payload (length ps) p) r).0
                (filled (ps ++ p ∷ []) rest))
  push-next ps rest p r whole faithful kept =
      let chunk = make_chunk epoch kind sequence payload (length ps) p in
      let old = entry payload t (filled ps (p ∷ rest)) in
      let r' = retained t r in
      let here : get_elem? (payload_pieces payload) (length ps) ≡ some p =
        ap (λ xs. get_elem? xs (length ps)) whole ∙ get_elem?-middle ps rest p in
      let part : IsPartOf payload old = (
        omega arith,
        refl,
        subst (IsPart (filled ps (p ∷ rest))) (sym whole) (filled-IsPart ps (p ∷ rest)),
      ) in
      let faithful' = retain-IsFaithful payload (kind, sequence) t r.partial faithful in
      let pushed : push (t, t) chunk r ≡ accept_chunk chunk old r' =
        push-in_bounds t t chunk r
          (in_bounds payload some_bytes not_many epoch kind sequence (length ps) p here)
        ∙ ap (λ q. accept_chunk chunk q r') kept in
      let state : any_missing (set_slot (length ps) p old.chunks) ≡ leb 1 (length rest) =
        ap any_missing (set_slot-filled ps rest p) ∙ any_missing-filled (ps ++ p ∷ []) rest in
      let (result, after) =
        accept_chunk-piece payload some_bytes not_many epoch kind sequence (length ps) p old r' here
          part faithful' in
      (
        ap (λ x. x.1) pushed
            ∙ result
            ∙ ap (λ b. if b then done none else done (some payload)) state,
        elim (Bool-cases (leb 1 (length rest))) [
          | inr e ↦ inl e
          | inl e ↦
              let stored =
                ap (λ x. x.0.partial) pushed
                ∙ accept_chunk-missing (length ps) p old r' here part (state ∙ e)
                ∙ ap (λ s. insert (kind, sequence) (entry payload t s) (retain t r.partial))
                    (set_slot-filled ps rest p) in
              inr (
                ap
                  (λ m.
                    unwrap_or (lookup (kind, sequence) (retain t m))
                      (entry payload t (none_slots (chunk_count payload % 2 ^ 32))))
                  stored
                ∙ ap
                    (λ o. unwrap_or o (entry payload t (none_slots (chunk_count payload % 2 ^ 32))))
                    (lookup-retain-insert t (kind, sequence)
                      (entry payload t (filled (ps ++ p ∷ []) rest)) (retain t r.partial) refl))
        ],
      )

  push_rest :
      (rest ps : List (List ℕ)) (p : List ℕ) (chunks : List CursorChunk) (r : CursorReassembler)
      → payload_pieces payload ≡ ps ++ p ∷ rest
      → number_chunks epoch kind sequence payload (length ps) (p ∷ rest) ≡ map chunk_message chunks
      → IsFaithful payload (kind, sequence) r.partial
      → IsKept r (filled ps (p ∷ rest))
      → get_last? (push_all (map (λ c. ((t, t), c)) chunks) r) ≡ some (done (some payload))
  unfolding push_all
  push_rest rest ps p [] r whole same faithful kept = absurd (cc)
  push_rest [] ps p (c ∷ d ∷ chunks) r whole same faithful kept = absurd (cc)
  push_rest (q ∷ rest) ps p (c ∷ []) r whole same faithful kept = absurd (cc)
  push_rest [] ps p (c ∷ []) r whole same faithful kept =
      let own : c ≡ make_chunk epoch kind sequence payload (length ps) p = ground arith in
      let (result, after) = push-next ps [] p r whole faithful kept in
      ap (λ x. some (push (t, t) x r).1) own ∙ ap some result
  push_rest (q ∷ rest) ps p (c ∷ d ∷ chunks) r whole same faithful kept =
      let first = make_chunk epoch kind sequence payload (length ps) p in
      let own : first ≡ c = ground arith in
      let others : number_chunks epoch kind sequence payload (length ps + 1) (q ∷ rest)
          ≡ map chunk_message (d ∷ chunks) =
        ground arith in
      let longer : length (ps ++ p ∷ []) ≡ length ps + 1 = length-append ps (p ∷ []) in
      let here : get_elem? (payload_pieces payload) (length ps) ≡ some p =
        ap (λ xs. get_elem? xs (length ps)) whole ∙ get_elem?-middle ps (q ∷ rest) p in
      let kept' : IsKept (push (t, t) first r).0 (filled (ps ++ p ∷ []) (q ∷ rest)) =
        elim (push-next ps (q ∷ rest) p r whole faithful kept).1 [
          | inl e ↦ absurd (ground arith)
          | inr k ↦ k
        ] in
      let faithful' =
        (push-piece payload some_bytes not_many (t, t) epoch kind sequence (length ps) p r here
          faithful).1 in
      push_rest rest (ps ++ p ∷ []) q (d ∷ chunks) (push (t, t) c r).0
        (whole ∙ sym (append_assoc ps (p ∷ []) (q ∷ rest)))
        (ap (λ n. number_chunks epoch kind sequence payload n (q ∷ rest)) longer ∙ others)
        (subst (λ x. IsFaithful payload (kind, sequence) (push (t, t) x r).0.partial) own faithful')
        (subst (λ x. IsKept (push (t, t) x r).0 (filled (ps ++ p ∷ []) (q ∷ rest))) own kept')

-- When a payload is encoded into messages and the chunks of all these messages reach a new
-- reassembler in their order, at one reading of the clock, the last result is exactly the payload.
pub encode_cursor_chunks-push_in_order :
    (epoch : List ℕ) (kind : ℤ) (sequence : ℕ) (payload : List ℕ) (chunks : List CursorChunk)
    (t : ℕ)
    → encode_cursor_chunks epoch kind sequence payload ≡ done (map chunk_message chunks)
    → get_last? (push_all (map (λ c. ((t, t), c)) chunks) new_reassembler)
      ≡ some (done (some payload))
unfolding encode_cursor_chunks retain lookup
encode_cursor_chunks-push_in_order epoch kind sequence payload chunks t e =
    from_start (payload_pieces payload) refl (ground arith)
  where
    low : 1 ≤ length payload
    low = ground arith

    high : length payload ≤ max_cursor_payload_bytes
    high = ground arith

    from_start :
        (ps : List (List ℕ))
        → payload_pieces payload ≡ ps
        → number_chunks epoch kind sequence payload 0 (payload_pieces payload)
          ≡ map chunk_message chunks
        → get_last? (push_all (map (λ c. ((t, t), c)) chunks) new_reassembler)
          ≡ some (done (some payload))
    from_start [] whole same =
        absurd (omega (arith, low, ap length whole, length-pieces (chunk_count payload) payload))
    from_start (p ∷ rest) whole same =
        let slots : chunk_count payload % 2 ^ 32 ≡ length (p ∷ rest) =
          omega (arith, high, ap length whole, length-pieces (chunk_count payload) payload) in
        push_rest payload low high t epoch kind sequence rest [] p chunks new_reassembler whole
          (ap (number_chunks epoch kind sequence payload 0) (sym whole) ∙ same) tt
          (ap (λ n. entry payload t (none_slots n)) slots)
