-- ===== src/Server/Registered.antt =====
-- The two maps of the sessions agree: a session stands at the address that its UUID is filed under.
use fly_ruler_proto.Base.Equality.{string_eq, Str, str_eq, str_eq_iff}
use fly_ruler_proto.Base.{
  ◌≡◌, sym, ap, ◌∙◌, subst, ◌⊎◌, inl, inr, none, some, List, [], ◌∷◌, arith, Bool-cases,
}
use fly_ruler_proto.Base.Dict.{lookup, insert, remove, lookup-insert, lookup-remove}
use fly_ruler_proto.Server.{SocketAddr, Session, SessionState}

-- Each session names its own address, and its UUID is filed under that address.
abbrev pub IsRegistered : List (Str × SocketAddr) → List (SocketAddr × Session) → Type 0
IsRegistered uuids [] = Unit
IsRegistered uuids ((a, v) ∷ m) =
    (v.addr ≡ a) × (lookup v.client_uuid_hex uuids ≡ some a) × IsRegistered uuids m

abbrev pub IsConsistent : SessionState → Type 0
IsConsistent s = IsRegistered s.by_client_uuid s.by_addr

pub lookup-IsRegistered :
    (uuids : List (Str × SocketAddr)) (a : SocketAddr) (v : Session)
    (m : List (SocketAddr × Session))
    → IsRegistered uuids m
    → lookup a m ≡ some v
    → (v.addr ≡ a) × (lookup v.client_uuid_hex uuids ≡ some a)
unfolding lookup
lookup-IsRegistered uuids a v [] h e = absurd (cc)
lookup-IsRegistered uuids a v ((b, w) ∷ m) h e = elim (Bool-cases (str_eq b a)) [
  | inl same ↦
      let here : w ≡ v = ground arith in
      let there : b ≡ a = (str_eq_iff b a).0 same in
      subst (λ x. (x.addr ≡ a) × (lookup x.client_uuid_hex uuids ≡ some a)) here
        (subst (λ c. (w.addr ≡ c) × (lookup w.client_uuid_hex uuids ≡ some c)) there (h.0, h.1))
  | inr other ↦ lookup-IsRegistered uuids a v m h.2 (ground arith)
]

pub insert-IsRegistered :
    (uuids : List (Str × SocketAddr)) (a : SocketAddr) (v : Session)
    (m : List (SocketAddr × Session))
    → IsRegistered uuids m
    → v.addr ≡ a
    → lookup v.client_uuid_hex uuids ≡ some a
    → IsRegistered uuids (insert a v m)
unfolding insert
insert-IsRegistered uuids a v [] h p q = (p, q, tt)
insert-IsRegistered uuids a v ((b, w) ∷ m) h p q = elim (Bool-cases (str_eq b a)) [
  | inl same ↦
      let there : a ≡ b = sym ((str_eq_iff b a).0 same) in
      rw same (p ∙ there, q ∙ ap some there, h.2)
  | inr other ↦ rw other (h.0, h.1, insert-IsRegistered uuids a v m h.2 p q)
]

-- A UUID that was free is filed.
pub file_free-IsRegistered :
    (uuids : List (Str × SocketAddr)) (u : Str) (a : SocketAddr) (m : List (SocketAddr × Session))
    → lookup u uuids ≡ none
    → IsRegistered uuids m
    → IsRegistered (insert u a uuids) m
file_free-IsRegistered uuids u a [] free h = tt
file_free-IsRegistered uuids u a ((b, w) ∷ m) free h = (
  h.0,
  ground (arith, lookup-insert u w.client_uuid_hex a uuids, str_eq_iff u w.client_uuid_hex, h.1),
  file_free-IsRegistered uuids u a m free h.2,
)

-- A UUID that was filed elsewhere is filed anew, and the session there removed.
pub refile-IsRegistered :
    (uuids : List (Str × SocketAddr)) (u : Str) (a old : SocketAddr)
    (m : List (SocketAddr × Session))
    → lookup u uuids ≡ some old
    → IsRegistered uuids m
    → IsRegistered (insert u a uuids) (remove old m)
unfolding remove
refile-IsRegistered uuids u a old [] filed h = tt
refile-IsRegistered uuids u a old ((b, w) ∷ m) filed h = elim (Bool-cases (str_eq b old)) [
  | inl same ↦ rw same (refile-IsRegistered uuids u a old m filed h.2)
  | inr other ↦ rw other (
    h.0,
    ground (
      arith,
      lookup-insert u w.client_uuid_hex a uuids,
      str_eq_iff u w.client_uuid_hex,
      str_eq_iff b old,
      h.1,
    ),
    refile-IsRegistered uuids u a old m filed h.2,
  )
]

-- An address and a UUID that is filed under it, or under none, are removed.
pub drop-IsRegistered :
    (uuids : List (Str × SocketAddr)) (u : Str) (a : SocketAddr) (m : List (SocketAddr × Session))
    → (lookup u uuids ≡ some a) ⊎ (lookup u uuids ≡ none)
    → IsRegistered uuids m
    → IsRegistered (remove u uuids) (remove a m)
unfolding remove
drop-IsRegistered uuids u a [] filed h = tt
drop-IsRegistered uuids u a ((b, w) ∷ m) filed h = elim (Bool-cases (str_eq b a)) [
  | inl same ↦ rw same (drop-IsRegistered uuids u a m filed h.2)
  | inr other ↦ rw other (
    h.0,
    ground (
      arith,
      lookup-remove u w.client_uuid_hex uuids,
      str_eq_iff u w.client_uuid_hex,
      str_eq_iff b a,
      filed,
      h.1,
    ),
    drop-IsRegistered uuids u a m filed h.2,
  )
]
