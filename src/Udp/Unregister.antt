-- ===== src/Udp/Unregister.antt =====
-- The loop over list2unreg at the end of publish_to_subscribed (src/udp_publisher.cpp).
use data_spinner.Base.{
  ℕ, ◌≡◌, refl, ap, sym, ◌∙◌, arith, Bool, true, false, none, some, List, [], ◌∷◌, ◌++◌,
  append_assoc, Bool-cases, inl, inr,
}
use data_spinner.Udp.{SockAddr}
use data_spinner.Udp.Publisher.{
  Cfg, UdpConnInfo, Subscribers, UdpPublisher, same_addr, find_subscriber, erase_subscriber,
  unregister_udp_subscriber, unregister_found,
}
use data_spinner.Udp.Publish.{next_index, check_heartbeat, add_unreg, unregister_all}
use data_spinner.Udp.Table.{IsDistinct, same_addr_refl, same_addr_sym, erase-IsDistinct}

-- A subscriber after its message was sent, and whether its heartbeat is late then.
abbrev pub checked : Cfg → ℕ → UdpConnInfo → UdpConnInfo × Bool
checked cfg now ci = check_heartbeat cfg now (next_index ci)

abbrev pub all_checked : Cfg → ℕ → Subscribers → Subscribers
all_checked cfg now [] = []
all_checked cfg now ((sin, ci) ∷ rest) = (sin, (checked cfg now ci).0) ∷ all_checked cfg now rest

abbrev pub late_addresses : Cfg → ℕ → Subscribers → List SockAddr
late_addresses cfg now [] = []
late_addresses cfg now ((sin, ci) ∷ rest) =
    add_unreg (checked cfg now ci).1 sin (late_addresses cfg now rest)

-- The subscribers whose heartbeat is in time.
abbrev pub keep_unless : Bool → SockAddr × UdpConnInfo → Subscribers → Subscribers
keep_unless true e es = es
keep_unless false e es = e ∷ es

unfoldable pub in_time : Cfg → ℕ → Subscribers → Subscribers
in_time cfg now [] = []
in_time cfg now ((sin, ci) ∷ rest) =
    let k = checked cfg now ci in keep_unless k.1 (sin, k.0) (in_time cfg now rest)

find_past :
    (xs ys : Subscribers) (e : SockAddr × UdpConnInfo) (a : SockAddr)
    → same_addr a e.0 ≡ true
    → find_subscriber a (xs ++ (e ∷ ys)) ≡ none
    → ⊥
unfolding find_subscriber
find_past [] ys e a y h = ground (arith, y, h)
find_past (x ∷ xs) ys e a y h = ground (arith, h, find_past xs ys e a y)

-- In a table with each address once, an entry is not found before its place.
find-before :
    (xs ys : Subscribers) (e : SockAddr × UdpConnInfo)
    → IsDistinct (xs ++ (e ∷ ys))
    → find_subscriber e.0 xs ≡ none
unfolding find_subscriber
find-before [] ys e d = refl
find-before (x ∷ xs) ys e d = elim (Bool-cases (same_addr x.0 e.0)) [
  | inl y ↦ absurd (find_past xs ys e x.0 y d.0)
  | inr n ↦ rw (same_addr_sym x.0 e.0 n) (find-before xs ys e d.1)
]

find_at :
    (xs ys : Subscribers) (e : SockAddr × UdpConnInfo)
    → find_subscriber e.0 xs ≡ none
    → find_subscriber e.0 (xs ++ (e ∷ ys)) ≡ some e.1
unfolding find_subscriber
find_at [] ys e h = rw (same_addr_refl e.0) refl
find_at (x ∷ xs) ys e h = elim (Bool-cases (same_addr e.0 x.0)) [
  | inl y ↦ absurd (ground (arith, y, h))
  | inr n ↦ rw n (find_at xs ys e (rw n at h))
]

erase_at :
    (xs ys : Subscribers) (e : SockAddr × UdpConnInfo)
    → find_subscriber e.0 xs ≡ none
    → erase_subscriber e.0 (xs ++ (e ∷ ys)) ≡ xs ++ ys
unfolding find_subscriber erase_subscriber
erase_at [] ys e h = rw (same_addr_refl e.0) refl
erase_at (x ∷ xs) ys e h = elim (Bool-cases (same_addr e.0 x.0)) [
  | inl y ↦ absurd (ground (arith, y, h))
  | inr n ↦ rw n (ap (λ t. x ∷ t) (erase_at xs ys e (rw n at h)))
]

unregister_at :
    (xs ys : Subscribers) (e : SockAddr × UdpConnInfo) (c : UdpPublisher)
    → c.subscribers ≡ xs ++ (e ∷ ys)
    → IsDistinct (xs ++ (e ∷ ys))
    → (unregister_udp_subscriber e.0 c).subscribers ≡ xs ++ ys
unfolding unregister_udp_subscriber unregister_found
unregister_at xs ys e c h d =
    let before = find-before xs ys e d in rw (h, find_at xs ys e before) (erase_at xs ys e before)

-- The loop takes the late subscribers out and leaves the others, `xs` among them.
unregister_all-after :
    (cfg : Cfg) (now : ℕ) (xs es : Subscribers) (c : UdpPublisher)
    → c.subscribers ≡ xs ++ all_checked cfg now es
    → IsDistinct (xs ++ all_checked cfg now es)
    → (unregister_all (late_addresses cfg now es) c).subscribers ≡ xs ++ in_time cfg now es
unfolding unregister_all in_time
unregister_all-after cfg now xs [] c h d = h
unregister_all-after cfg now xs ((sin, ci) ∷ rest) c h d =
    let e : SockAddr × UdpConnInfo = (sin, (checked cfg now ci).0) in
    let ys = all_checked cfg now rest in
    let erased : IsDistinct (xs ++ ys) =
      rw (erase_at xs ys e (find-before xs ys e d)) at (erase-IsDistinct sin (xs ++ (e ∷ ys)) d) in
    let shift : (zs : Subscribers) → (xs ++ (e ∷ [])) ++ zs ≡ xs ++ (e ∷ zs) =
      λ zs. append_assoc xs (e ∷ []) zs in
    elim (Bool-cases ((checked cfg now ci).1)) [
      | inl late ↦ rw late (
          unregister_all-after cfg now xs rest (unregister_udp_subscriber sin c)
            (unregister_at xs ys e c h d) erased)
      | inr fine ↦ rw fine (
          unregister_all-after cfg now (xs ++ (e ∷ [])) rest c (h ∙ sym (shift ys))
            (rw (shift ys) d)
          ∙ shift (in_time cfg now rest))
    ]

pub unregister_all_late :
    (cfg : Cfg) (now : ℕ) (es : Subscribers) (c : UdpPublisher)
    → c.subscribers ≡ all_checked cfg now es
    → IsDistinct (all_checked cfg now es)
    → (unregister_all (late_addresses cfg now es) c).subscribers ≡ in_time cfg now es
unregister_all_late cfg now es c h d = unregister_all-after cfg now [] es c h d
