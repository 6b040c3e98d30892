-- ===== src/Udp/Table.antt =====
-- The table of subscribers of src/udp_publisher.cpp.
use data_spinner.Base.{
  ℕ, ◌≡◌, refl, ap, sym, ◌∙◌, arith, true, false, none, [], ◌∷◌, ◌++◌, length, Bool-cases,
  Option-cases, inl, inr,
}
use data_spinner.Records.{u16, LoginMsg}
use data_spinner.Udp.{SockAddr}
use data_spinner.Udp.Publisher.{
  Cfg, UdpConnInfo, Subscribers, UdpPublisher, register_found, unregister_found, same_addr,
  find_subscriber, erase_subscriber, new_conn_info, register_udp_subscriber,
  unregister_udp_subscriber, touch_subscriber,
}

pub same_addr_refl : (a : SockAddr) → same_addr a a ≡ true
same_addr_refl a = ground arith

pub same_addr_sym : (a b : SockAddr) → same_addr a b ≡ false → same_addr b a ≡ false
same_addr_sym a b h = ground (arith, h)

same_addr_trans :
    (a b c : SockAddr) → same_addr a b ≡ true → same_addr a c ≡ false → same_addr b c ≡ false
same_addr_trans a b c h k = ground (arith, h, k)

-- No two entries have the same address.
abbrev pub IsDistinct : Subscribers → Type 0
IsDistinct [] = Unit
IsDistinct (e ∷ es) = (find_subscriber e.0 es ≡ none) × IsDistinct es

-- The table has each address once, and the counter is its size, as a uint16_t.
pub record IsTable (c : UdpPublisher) : Type 0 where
  pub distinct : IsDistinct c.subscribers
  pub counted : c.subscribers_count ≡ u16 (length c.subscribers)

pub find-append :
    (a : SockAddr) (xs ys : Subscribers)
    → find_subscriber a xs ≡ none
    → find_subscriber a (xs ++ ys) ≡ find_subscriber a ys
unfolding find_subscriber
find-append a [] ys h = refl
find-append a (x ∷ xs) ys h = ground (arith, h, find-append a xs ys)

pub find-append_other :
    (a b : SockAddr) (ci : UdpConnInfo) (xs : Subscribers)
    → same_addr a b ≡ false
    → find_subscriber a (xs ++ ((b, ci) ∷ [])) ≡ find_subscriber a xs
unfolding find_subscriber
find-append_other a b ci [] h = rw h refl
find-append_other a b ci (x ∷ xs) h = ground (arith, find-append_other a b ci xs h)

find-append_none :
    (a : SockAddr) (xs ys : Subscribers)
    → find_subscriber a xs ≡ none
    → find_subscriber a ys ≡ none
    → find_subscriber a (xs ++ ys) ≡ none
find-append_none a xs ys h k = find-append a xs ys h ∙ k

-- A new entry at the end, if its address is new.
append-IsDistinct :
    (xs : Subscribers) (e : SockAddr × UdpConnInfo)
    → IsDistinct xs
    → find_subscriber e.0 xs ≡ none
    → IsDistinct (xs ++ (e ∷ []))
unfolding find_subscriber
append-IsDistinct [] e d h = (refl, tt)
append-IsDistinct (x ∷ xs) e d h = elim (Bool-cases (same_addr e.0 x.0)) [
  | inl y ↦ absurd (ground (arith, y, h))
  | inr n ↦
      let later : find_subscriber e.0 xs ≡ none = rw n at h in
      let other : find_subscriber x.0 (e ∷ []) ≡ none = rw (same_addr_sym e.0 x.0 n) refl in
      (find-append_none x.0 xs (e ∷ []) d.0 other, append-IsDistinct xs e d.1 later)
]

pub find-erase_none :
    (a b : SockAddr) (xs : Subscribers)
    → find_subscriber a xs ≡ none
    → find_subscriber a (erase_subscriber b xs) ≡ none
unfolding find_subscriber erase_subscriber
find-erase_none a b [] h = refl
find-erase_none a b (x ∷ xs) h = ground (arith, h, find-erase_none a b xs)

pub erase-IsDistinct :
    (a : SockAddr) (xs : Subscribers) → IsDistinct xs → IsDistinct (erase_subscriber a xs)
unfolding erase_subscriber
erase-IsDistinct a [] d = tt
erase-IsDistinct a (x ∷ xs) d = elim (Bool-cases (same_addr a x.0)) [
  | inl y ↦ rw y d.1
  | inr n ↦ rw n (find-erase_none x.0 a xs d.0, erase-IsDistinct a xs d.1)
]

pub register_udp_subscriber-IsTable :
    (cfg : Cfg) (now : ℕ) (a : SockAddr) (m : LoginMsg) (c : UdpPublisher)
    → IsTable c
    → IsTable (register_udp_subscriber cfg now a m c)
unfolding register_udp_subscriber register_found
register_udp_subscriber-IsTable cfg now a m c v =
    elim (Option-cases (find_subscriber a c.subscribers)) [
      | inl e ↦ rw e (record {
        distinct = append-IsDistinct c.subscribers (a, new_conn_info cfg now m.user) v.distinct e;
        counted = refl;
      })
      | inr (ci, e) ↦ rw e v
    ]

pub unregister_udp_subscriber-IsTable :
    (a : SockAddr) (c : UdpPublisher) → IsTable c → IsTable (unregister_udp_subscriber a c)
unfolding unregister_udp_subscriber unregister_found
unregister_udp_subscriber-IsTable a c v = elim (Option-cases (find_subscriber a c.subscribers)) [
  | inl e ↦ rw e v
  | inr (ci, e) ↦
      rw e (record { distinct = erase-IsDistinct a c.subscribers v.distinct; counted = refl })
]

-- Two tables with the same addresses in the same order.
abbrev pub SameAddresses : Subscribers → Subscribers → Type 0
SameAddresses [] [] = Unit
SameAddresses [] (y ∷ ys) = ⊥
SameAddresses (x ∷ xs) [] = ⊥
SameAddresses (x ∷ xs) (y ∷ ys) = (x.0 ≡ y.0) × SameAddresses xs ys

pub SameAddresses-refl : (xs : Subscribers) → SameAddresses xs xs
SameAddresses-refl [] = tt
SameAddresses-refl (x ∷ xs) = (refl, SameAddresses-refl xs)

find-SameAddresses :
    (a : SockAddr) (xs ys : Subscribers)
    → SameAddresses xs ys
    → find_subscriber a xs ≡ none
    → find_subscriber a ys ≡ none
unfolding find_subscriber
find-SameAddresses a [] [] s h = refl
find-SameAddresses a [] (y ∷ ys) s h = absurd s
find-SameAddresses a (x ∷ xs) [] s h = absurd s
find-SameAddresses a (x ∷ xs) (y ∷ ys) s h = elim (Bool-cases (same_addr a x.0)) [
  | inl e ↦ absurd (ground (arith, e, h))
  | inr e ↦
      let e₁ : same_addr a y.0 ≡ false = rw (sym (s.0)) e in
      rw e₁ (find-SameAddresses a xs ys s.1 (rw e at h))
]

pub SameAddresses-IsDistinct :
    (xs ys : Subscribers) → SameAddresses xs ys → IsDistinct xs → IsDistinct ys
SameAddresses-IsDistinct [] [] s d = tt
SameAddresses-IsDistinct [] (y ∷ ys) s d = absurd s
SameAddresses-IsDistinct (x ∷ xs) [] s d = absurd s
SameAddresses-IsDistinct (x ∷ xs) (y ∷ ys) s d =
    (find-SameAddresses y.0 xs ys s.1 (rw (sym (s.0)) d.0), SameAddresses-IsDistinct xs ys s.1 d.1)

length-SameAddresses : (xs ys : Subscribers) → SameAddresses xs ys → length xs ≡ length ys
length-SameAddresses [] [] s = refl
length-SameAddresses [] (y ∷ ys) s = absurd s
length-SameAddresses (x ∷ xs) [] s = absurd s
length-SameAddresses (x ∷ xs) (y ∷ ys) s = omega (arith, length-SameAddresses xs ys s.1)

-- A change of the entries that keeps their addresses.
pub with_subscribers-IsTable :
    (c : UdpPublisher) (ys : Subscribers)
    → IsTable c
    → SameAddresses c.subscribers ys
    → IsTable (record c { subscribers = ys })
with_subscribers-IsTable c ys v s = record {
  distinct = SameAddresses-IsDistinct c.subscribers ys s v.distinct;
  counted = v.counted ∙ ap u16 (length-SameAddresses c.subscribers ys s);
}

pub touch_subscriber-SameAddresses :
    (now : ℕ) (a : SockAddr) (xs : Subscribers) → SameAddresses xs (touch_subscriber now a xs)
unfolding touch_subscriber
touch_subscriber-SameAddresses now a [] = tt
touch_subscriber-SameAddresses now a (x ∷ xs) = elim (Bool-cases (same_addr a x.0)) [
  | inl e ↦ rw e (refl, SameAddresses-refl xs)
  | inr e ↦ rw e (refl, touch_subscriber-SameAddresses now a xs)
]
