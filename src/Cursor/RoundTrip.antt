-- ===== src/Cursor/RoundTrip.antt =====
-- The chunks of one payload, reassembled: in any order, with repetitions, also after an expiry.
use fly_ruler_proto.Cursor.{
  key_eq, metadata_differs, join, key_eqb, key_eqb_iff, retain, bad_bounds, push, CursorResult,
  CursorChunk, key_of, cursor_reassembly_timeout, max_cursor_payload_bytes, done, PartialPayload,
  CursorReassembler, chunk_count, payload_pieces, make_chunk, none_slots, set_slot, any_missing,
  new_partial, assemble, accept_chunk,
}
use fly_ruler_proto.Base.{
  ℕ, ◌%◌, ◌^◌, ◌≤◌, ◌≡◌, refl, ◌∙◌, subst, Option, none, some, List, [], ◌∷◌, arith, if◌then◌else◌,
  length, get_elem?, false, true, Bool-cases, inl, inr, unwrap_or, ◌⊎◌, Option-cases, min, ◌+◌,
  Bool, ◌-◌, sym, leb,
}
use fly_ruler_proto.Base.Dict.{
  lookup, AllEntries, AllEntries-lookup, AllEntries-insert, AllEntries-remove,
}
use fly_ruler_proto.Base.Int.{ℤ}
use fly_ruler_proto.Cursor.Checksum.{checksum32}
use fly_ruler_proto.Cursor.Pieces.{
  IsPart, none_slots-IsPart, length-pieces, index-lt-length, set_slot-IsPart, IsPart-length,
  join-concat_pieces, payload_pieces-concat,
}

-- What is kept of a payload: its size and checksum, and some of its pieces.
abbrev pub IsPartOf : List ℕ → PartialPayload → Type 0
IsPartOf payload p =
    (p.total_size ≡ length payload)
    × (p.checksum ≡ checksum32 payload)
    × IsPart p.chunks (payload_pieces payload)

-- Whatever is kept under the key is a part of the payload.
abbrev pub IsFaithful : List ℕ → ℤ × ℕ → List ((ℤ × ℕ) × PartialPayload) → Type 0
IsFaithful payload key m = AllEntries (λ k p. (key_eqb k key ≡ false) ⊎ IsPartOf payload p) m

pub retain-IsFaithful :
    (payload : List ℕ) (key : ℤ × ℕ) (now : ℕ) (m : List ((ℤ × ℕ) × PartialPayload))
    → IsFaithful payload key m
    → IsFaithful payload key (retain now m)
unfolding retain
retain-IsFaithful payload key now [] h = tt
retain-IsFaithful payload key now ((k, p) ∷ m) h =
    elim (Bool-cases (leb (now - p.created_at) cursor_reassembly_timeout)) [
      | inl e ↦ rw e (h.0, retain-IsFaithful payload key now m h.1)
      | inr e ↦ rw e (retain-IsFaithful payload key now m h.1)
    ]

-- A result with nothing or with the payload, and what is kept after it.
abbrev pub IsGood : List ℕ → ℤ × ℕ → CursorReassembler × CursorResult (Option (List ℕ)) → Type 0
IsGood payload key (r, result) =
    ((result ≡ done none) ⊎ (result ≡ done (some payload))) × IsFaithful payload key r.partial

-- The reassembler without what has expired.
abbrev pub retained : ℕ → CursorReassembler → CursorReassembler
retained expiry r = record {
  partial = retain expiry r.partial;
  expired_payloads =
      min (r.expired_payloads + (length r.partial - length (retain expiry r.partial))) (2 ^ 64 - 1);
}

pub push-in_bounds :
    (expiry now : ℕ) (chunk : CursorChunk) (r : CursorReassembler)
    → bad_bounds chunk ≡ false
    → push (expiry, now) chunk r
      ≡ accept_chunk chunk
          (unwrap_or (lookup (key_of chunk) (retain expiry r.partial)) (new_partial now chunk))
          (retained expiry r)
unfolding push
push-in_bounds expiry now chunk r e = rw e refl

module _ (payload : List ℕ) (some_bytes : 1 ≤ length payload)
    (not_many : length payload ≤ max_cursor_payload_bytes) where
  count-small : chunk_count payload ≤ 4096
  count-small = omega arith

  new_partial-IsPartOf :
      (now : ℕ) (epoch : List ℕ) (kind : ℤ) (sequence i : ℕ) (bytes : List ℕ)
      → IsPartOf payload (new_partial now (make_chunk epoch kind sequence payload i bytes))
  new_partial-IsPartOf now epoch kind sequence i bytes = (
    omega arith,
    refl,
    subst (λ n. IsPart (none_slots n) (payload_pieces payload))
        (length-pieces (chunk_count payload) payload ∙ count)
        (none_slots-IsPart (payload_pieces payload)),
  )
    where
      count : chunk_count payload ≡ chunk_count payload % 2 ^ 32
      count = omega (arith, count-small)

  pub index-small :
      (i : ℕ) (bytes : List ℕ) → get_elem? (payload_pieces payload) i ≡ some bytes → i % 2 ^ 32 ≡ i
  index-small i bytes here = omega (
    arith,
    index-lt-length (payload_pieces payload) i bytes here,
    length-pieces (chunk_count payload) payload,
    count-small,
  )

  pub matches :
      (epoch : List ℕ) (kind : ℤ) (sequence i : ℕ) (bytes : List ℕ) (p : PartialPayload)
      → IsPartOf payload p
      → metadata_differs (make_chunk epoch kind sequence payload i bytes) p ≡ false
  matches epoch kind sequence i bytes p (size, crc, part) = ground (
    arith,
    IsPart-length p.chunks (payload_pieces payload) part,
    length-pieces (chunk_count payload) payload,
    count-small,
  )

  assemble-whole :
      (epoch : List ℕ) (kind : ℤ) (sequence i : ℕ) (bytes : List ℕ) (slots : List (Option (List ℕ)))
      → IsPart slots (payload_pieces payload)
      → any_missing slots ≡ false
      → assemble (make_chunk epoch kind sequence payload i bytes) slots ≡ done (some payload)
  unfolding assemble
  assemble-whole epoch kind sequence i bytes slots part whole =
      let joined : join slots ≡ payload =
        join-concat_pieces slots (payload_pieces payload) part whole
        ∙ payload_pieces-concat payload in
      rw joined (ground arith)

  -- A chunk of the payload put into a part of it.
  pub accept_chunk-piece :
      (epoch : List ℕ) (kind : ℤ) (sequence i : ℕ) (bytes : List ℕ) (p : PartialPayload)
      (r : CursorReassembler)
      → get_elem? (payload_pieces payload) i ≡ some bytes
      → IsPartOf payload p
      → IsFaithful payload (kind, sequence) r.partial
      → ((accept_chunk (make_chunk epoch kind sequence payload i bytes) p r).1
          ≡ (if any_missing (set_slot i bytes p.chunks) then done none else done (some payload)))
        × IsFaithful payload
            (kind, sequence)
            (accept_chunk (make_chunk epoch kind sequence payload i bytes) p r).0.partial
  unfolding accept_chunk
  accept_chunk-piece epoch kind sequence i bytes p r here (size, crc, part) faithful =
      let slots = set_slot i bytes p.chunks in
      let part' = set_slot-IsPart i bytes p.chunks (payload_pieces payload) part here in
      let agree = matches epoch kind sequence i bytes p (size, crc, part) in
      let key : ℤ × ℕ = (kind, sequence) in
      let P : ℤ × ℕ → PartialPayload → Type 0 =
        λ k q. (key_eqb k key ≡ false) ⊎ IsPartOf payload q in
      elim (Bool-cases (any_missing slots)) [
        | inl e ↦
            rw (agree, index-small i bytes here, e)
              (refl, AllEntries-insert P key _ r.partial faithful (inr (size, crc, part')))
        | inr e ↦
            rw
              (
                agree,
                index-small i bytes here,
                e,
                assemble-whole epoch kind sequence i bytes slots part' e,
              )
              (refl, AllEntries-remove P key r.partial faithful)
      ]

  -- What is kept under the key, or a new entry, is a part of the payload.
  kept-IsPartOf :
      (now : ℕ) (epoch : List ℕ) (kind : ℤ) (sequence i : ℕ) (bytes : List ℕ)
      (m : List ((ℤ × ℕ) × PartialPayload))
      → IsFaithful payload (kind, sequence) m
      → IsPartOf payload (
          unwrap_or
            (lookup (kind, sequence) m)
            (new_partial now (make_chunk epoch kind sequence payload i bytes)))
  kept-IsPartOf now epoch kind sequence i bytes m faithful =
      let key : ℤ × ℕ = (kind, sequence) in
      let P : ℤ × ℕ → PartialPayload → Type 0 =
        λ k q. (key_eqb k key ≡ false) ⊎ IsPartOf payload q in
      elim (Option-cases (lookup key m)) [
        | inl e ↦ rw e (new_partial-IsPartOf now epoch kind sequence i bytes)
        | inr (p, e) ↦ rw e (elim (AllEntries-lookup P key p m faithful e) [
          | inl other ↦ absurd (cc (other, (key_eqb_iff key key).1 refl))
          | inr part ↦ part
        ])
      ]

  pub in_bounds :
      (epoch : List ℕ) (kind : ℤ) (sequence i : ℕ) (bytes : List ℕ)
      → get_elem? (payload_pieces payload) i ≡ some bytes
      → bad_bounds (make_chunk epoch kind sequence payload i bytes) ≡ false
  in_bounds epoch kind sequence i bytes here = ground (
    arith,
    index-lt-length (payload_pieces payload) i bytes here,
    length-pieces (chunk_count payload) payload,
    count-small,
  )

  pub push-piece :
      (clock : ℕ × ℕ) (epoch : List ℕ) (kind : ℤ) (sequence i : ℕ) (bytes : List ℕ)
      (r : CursorReassembler)
      → get_elem? (payload_pieces payload) i ≡ some bytes
      → IsFaithful payload (kind, sequence) r.partial
      → IsGood payload
          (kind, sequence)
          (push clock (make_chunk epoch kind sequence payload i bytes) r)
  push-piece (expiry, now) epoch kind sequence i bytes r here faithful =
      let chunk = make_chunk epoch kind sequence payload i bytes in
      let kept = retain expiry r.partial in
      let faithful' = retain-IsFaithful payload (kind, sequence) expiry r.partial faithful in
      let p = unwrap_or (lookup (kind, sequence) kept) (new_partial now chunk) in
      let (result, after) =
        accept_chunk-piece epoch kind sequence i bytes p (retained expiry r) here
          (kept-IsPartOf now epoch kind sequence i bytes kept faithful') faithful' in
      subst (IsGood payload (kind, sequence))
        (sym (push-in_bounds expiry now chunk r (in_bounds epoch kind sequence i bytes here)))
        (none_or_whole _ (any_missing (set_slot i bytes p.chunks)) result, after)
    where
      none_or_whole :
          (o : CursorResult (Option (List ℕ))) (b : Bool)
          → o ≡ (if b then done none else done (some payload))
          → (o ≡ done none) ⊎ (o ≡ done (some payload))
      none_or_whole o true e = inl e
      none_or_whole o false e = inr e
