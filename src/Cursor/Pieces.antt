-- ===== src/Cursor/Pieces.antt =====
-- The pieces of a payload, and slots that hold some of them.
use fly_ruler_proto.Base.{
  ℕ, zero, suc, ◌*◌, ◌≤◌, ◌<◌, ◌≡◌, refl, ap, ◌∙◌, false, Option, none, some, List, [], ◌∷◌, ◌++◌,
  arith, length, get_elem?, take, drop, length-drop, take-append-drop,
}
use fly_ruler_proto.Cursor.{
  cursor_chunk_bytes, pieces, chunk_count, payload_pieces, none_slots, set_slot, any_missing, join,
}

-- Each slot is empty or holds its piece.
abbrev pub IsPart : List (Option (List ℕ)) → List (List ℕ) → Type 0
IsPart [] [] = Unit
IsPart [] (p ∷ ps) = ⊥
IsPart (slot ∷ slots) [] = ⊥
IsPart (none ∷ slots) (p ∷ ps) = IsPart slots ps
IsPart (some bytes ∷ slots) (p ∷ ps) = (bytes ≡ p) × IsPart slots ps

abbrev pub concat_pieces : List (List ℕ) → List ℕ
concat_pieces [] = []
concat_pieces (p ∷ ps) = p ++ concat_pieces ps

pub IsPart-length :
    (slots : List (Option (List ℕ))) (ps : List (List ℕ))
    → IsPart slots ps
    → length slots ≡ length ps
IsPart-length [] [] h = refl
IsPart-length (none ∷ slots) (p ∷ ps) h = ap suc (IsPart-length slots ps h)
IsPart-length (some b ∷ slots) (p ∷ ps) h = ap suc (IsPart-length slots ps h.1)
IsPart-length [] (p ∷ ps) h = absurd h
IsPart-length (none ∷ slots) [] h = absurd h
IsPart-length (some b ∷ slots) [] h = absurd h

pub set_slot-IsPart :
    (i : ℕ) (bytes : List ℕ) (slots : List (Option (List ℕ))) (ps : List (List ℕ))
    → IsPart slots ps
    → get_elem? ps i ≡ some bytes
    → IsPart (set_slot i bytes slots) ps
set_slot-IsPart i bytes [] [] h e = tt
set_slot-IsPart i bytes [] (p ∷ ps) h e = absurd h
set_slot-IsPart i bytes (none ∷ slots) [] h e = absurd h
set_slot-IsPart i bytes (some b ∷ slots) [] h e = absurd h
set_slot-IsPart zero bytes (none ∷ slots) (p ∷ ps) h e = (ground arith, h)
set_slot-IsPart zero bytes (some b ∷ slots) (p ∷ ps) h e = (ground arith, h.1)
set_slot-IsPart (suc i) bytes (none ∷ slots) (p ∷ ps) h e = set_slot-IsPart i bytes slots ps h e
set_slot-IsPart (suc i) bytes (some b ∷ slots) (p ∷ ps) h e =
    (h.0, set_slot-IsPart i bytes slots ps h.1 e)

pub none_slots-IsPart : (ps : List (List ℕ)) → IsPart (none_slots (length ps)) ps
none_slots-IsPart [] = tt
none_slots-IsPart (p ∷ ps) = none_slots-IsPart ps

pub join-concat_pieces :
    (slots : List (Option (List ℕ))) (ps : List (List ℕ))
    → IsPart slots ps
    → any_missing slots ≡ false
    → join slots ≡ concat_pieces ps
join-concat_pieces [] [] h e = refl
join-concat_pieces [] (p ∷ ps) h e = absurd h
join-concat_pieces (none ∷ slots) [] h e = absurd h
join-concat_pieces (some b ∷ slots) [] h e = absurd h
join-concat_pieces (none ∷ slots) (p ∷ ps) h e = absurd (cc)
join-concat_pieces (some b ∷ slots) (p ∷ ps) h e = cc (join-concat_pieces slots ps h.1 e, h.0)

pub length-pieces : (n : ℕ) (payload : List ℕ) → length (pieces n payload) ≡ n
length-pieces zero payload = refl
length-pieces (suc n) payload = ap suc (length-pieces n (drop cursor_chunk_bytes payload))

pub concat_pieces-pieces :
    (n : ℕ) (payload : List ℕ)
    → length payload ≤ n * cursor_chunk_bytes
    → concat_pieces (pieces n payload) ≡ payload
concat_pieces-pieces zero [] h = refl
concat_pieces-pieces zero (b ∷ payload) h = absurd (omega arith)
concat_pieces-pieces (suc n) payload h =
    ap (λ rest. take cursor_chunk_bytes payload ++ rest)
      (concat_pieces-pieces n (drop cursor_chunk_bytes payload)
        (omega (arith, length-drop cursor_chunk_bytes payload)))
    ∙ take-append-drop cursor_chunk_bytes payload

-- The pieces of a whole payload, put together.
pub payload_pieces-concat : (payload : List ℕ) → concat_pieces (payload_pieces payload) ≡ payload
payload_pieces-concat payload = concat_pieces-pieces (chunk_count payload) payload (omega arith)

pub index-lt-length :
    {A : Type 0} (xs : List A) (i : ℕ) (x : A) → get_elem? xs i ≡ some x → i < length xs
index-lt-length [] i x e = absurd (cc)
index-lt-length (y ∷ xs) zero x e = omega arith
index-lt-length (y ∷ xs) (suc i) x e = omega (arith, index-lt-length xs i x e)
