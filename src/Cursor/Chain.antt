-- ===== src/Cursor/Chain.antt =====
-- The pages that a subscriber of the cursor stream has still to acknowledge, in a row.
use fly_ruler_proto.Base.{
  max, ◌+◌, ◌%◌, ◌^◌, refl, ◌≡◌, [], ◌∷◌, true, false, Bool, ℕ, List, ◌≤◌, ◌++◌, All, arith, ◌∙◌,
  ap, sym, ◌<◌,
}
use fly_ruler_proto.Cursor.Subscriber.{SubscriberState, PendingEvents}
use fly_ruler_proto.Cursor.Publish.{next_sequence}

-- The pages are of one snapshot and numbered in turn (modulo 2^64, without 0) up to `next`; none but the first was sent, and
-- the last alone is final, if `final`.
abbrev pub IsChain : Bool → ℕ → List PendingEvents → Type 0
IsChain final next [] = Unit
IsChain final next (p ∷ []) = (p.sequence ≡ next) × (p.final_page ≡ final)
IsChain final next (p ∷ q ∷ ps) =
    (p.final_page ≡ false)
    × (q.sequence ≡ max ((p.sequence + 1) % 2 ^ 64) 1)
    × (p.revision ≡ q.revision)
    × (p.cursor ≡ q.cursor)
    × (q.attempts ≡ 0)
    × IsChain final next (q ∷ ps)

abbrev pub IsFrontTried : ℕ → List PendingEvents → Type 0
IsFrontTried limit [] = Unit
IsFrontTried limit (p ∷ ps) = p.attempts ≤ limit

abbrev pub IsNumberedPage : PendingEvents → Type 0
IsNumberedPage p = 0 < p.sequence

pub record IsQueued (limit : ℕ) (s : SubscriberState) : Type 0 where
  pub chain : IsChain true s.next_event_sequence s.pending
  pub tried : IsFrontTried limit s.pending
  pub numbered : All IsNumberedPage s.pending

pub IsChain-concat :
    (final : Bool) (next : ℕ) (ps : List PendingEvents) (page : PendingEvents)
    → IsChain false next ps
    → All (λ p. (p.revision ≡ page.revision) × (p.cursor ≡ page.cursor)) ps
    → page.sequence ≡ next_sequence next
    → page.final_page ≡ final
    → page.attempts ≡ 0
    → IsChain final page.sequence (ps ++ page ∷ [])
IsChain-concat final next [] page c same n f a = (refl, f)
IsChain-concat final next (p ∷ []) page c same n f a =
    (c.1, n ∙ ap next_sequence (sym c.0), same.0.0, same.0.1, a, (refl, f))
IsChain-concat final next (p ∷ q ∷ ps) page c same n f a =
    (c.0, c.1, c.2, c.3, c.4, IsChain-concat final next (q ∷ ps) page c.5 same.1 n f a)

pub front_kept :
    (ps : List PendingEvents) (page : PendingEvents)
    → IsFrontTried 0 ps
    → page.attempts ≡ 0
    → IsFrontTried 0 (ps ++ page ∷ [])
front_kept [] page f a = omega arith
front_kept (p ∷ ps) page f a = f

pub IsChain-tail :
    (next : ℕ) (p : PendingEvents) (ps : List PendingEvents)
    → IsChain true next (p ∷ ps)
    → IsChain true next ps
IsChain-tail next p [] c = tt
IsChain-tail next p (q ∷ ps) c = c.5

pub second_unsent :
    (limit next : ℕ) (p : PendingEvents) (ps : List PendingEvents)
    → IsChain true next (p ∷ ps)
    → IsFrontTried limit ps
second_unsent limit next p [] c = tt
second_unsent limit next p (q ∷ ps) c = omega (arith, c.4)

pub front_of_none :
    (limit : ℕ) (ps : List PendingEvents) → IsFrontTried 0 ps → IsFrontTried limit ps
front_of_none limit [] f = tt
front_of_none limit (p ∷ ps) f = omega (arith, f)

-- A page that was sent again has its number, its snapshot and its place.
pub head_resent :
    (next : ℕ) (p q : PendingEvents) (ps : List PendingEvents)
    → q.sequence ≡ p.sequence
    → q.revision ≡ p.revision
    → q.cursor ≡ p.cursor
    → q.final_page ≡ p.final_page
    → IsChain true next (p ∷ ps)
    → IsChain true next (q ∷ ps)
head_resent next p q [] a b c d h = (a ∙ h.0, d ∙ h.1)
head_resent next p q (r ∷ ps) a b c d h =
    (d ∙ h.0, h.1 ∙ ap next_sequence (sym a), b ∙ h.2, c ∙ h.3, h.4, h.5)
