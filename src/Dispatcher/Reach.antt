-- ===== src/Dispatcher/Reach.antt =====
-- The subscriptions of DeltaDispatcher (src/tcp_publisher.cpp), and whom its publish reaches.
use native.Mathlib.Decide.{ℕ_discrete}
use data_spinner.Base.{
  ℕ, ◌==◌, ◌≡◌, ◌⊎◌, ◌↔◌, inl, inr, refl, sym, ap, arith, Bool, true, false, ◌&&◌, ◌||◌, Option,
  none, some, List, [], ◌∷◌, if◌then◌else◌, length, Bool-cases, All,
}
use data_spinner.Records.{Str}
use data_spinner.Delta.{MdDelta}
use data_spinner.Message.{delta_msg}
use data_spinner.Queue.{SendResult}
use data_spinner.Queue.Stream.{IsWhole}
use data_spinner.Connection.{Call}
use data_spinner.Session.Sending.{CanSend}
use data_spinner.Dispatcher.{
  HbCfg, Connections, Heap, DeltaDispatcher, Publication, find_connection, subscribe_found,
  add_buscriptions, publish_each, publish, subscribed_connections, get_subscribed_connections,
  contains, insert, insert_all,
}
use data_spinner.Text.{same_str}
use data_spinner.Text.Equal.{same_str_eq}
use data_spinner.Dispatcher.Publish.{
  IsIn, NotIn, Distinct, Reached, Done, Completes, publish_each-Done, SameAt-refl,
}
use data_spinner.Dispatcher.Table.{IsTable, IsDispatcher, find-put, add_buscriptions-IsDispatcher}

-- What the table says of a connection and a symbol.
abbrev has_symbol : Str → Option (List Str) → Bool
has_symbol s none = false
has_symbol s (some ss) = contains s ss

unfoldable pub is_subscribed : ℕ → Str → Connections → Bool
is_subscribed q s es = has_symbol s (find_connection q es)

contains_same :
    (s t : Str) (ts : List Str) → same_str s t ≡ true → contains t ts ≡ true → contains s ts ≡ true
contains_same s t ts e h = rw (same_str_eq s t e) h

contains-insert :
    (s t : Str) (ts : List Str) → contains s (insert t ts) ≡ (same_str s t || contains s ts)
unfolding contains insert
contains-insert s t ts = elim (Bool-cases (contains t ts)) [
  | inl y ↦ elim (Bool-cases (same_str s t)) [
    | inl e ↦ rw (y, e) (contains_same s t ts e y)
    | inr e ↦ rw (y, e) refl
  ]
  | inr n ↦ rw n refl
]

contains-insert_all :
    (s : Str) (ss ts : List Str) → contains s (insert_all ss ts) ≡ (contains s ss || contains s ts)
unfolding insert_all contains
contains-insert_all s [] ts = refl
contains-insert_all s (t ∷ ss) ts =
    ground (arith, contains-insert_all s ss (insert t ts), contains-insert s t ts)

-- The subscriptions after add_buscriptions.
is_subscribed-add_buscriptions :
    (p q : ℕ) (s : Str) (symbols ss : List Str) (d : DeltaDispatcher)
    → find_connection p d.connections ≡ some ss
    → is_subscribed q s (add_buscriptions p symbols d).connections ≡ (
        if p == q
        then contains s symbols || is_subscribed q s d.connections
        else is_subscribed q s d.connections)
unfolding is_subscribed add_buscriptions subscribe_found
is_subscribed-add_buscriptions p q s symbols ss d h = elim (ℕ_discrete p q) [
  | yes e ↦ ground (
    arith,
    h,
    e,
    ap (λ k. find_connection k d.connections) e,
    find-put q p (insert_all symbols ss) d.connections,
    contains-insert_all s symbols ss,
  )
  | no n ↦ ground (arith, h, n, find-put q p (insert_all symbols ss) d.connections)
]

module _ (s : Str) (h : Heap) where
  IsIn-subscribed :
      (q : ℕ) (es : Connections)
      → IsTable es
      → IsIn q (subscribed_connections s h es)
      → ((h q).peer.conn.is_valid && is_subscribed q s es) ≡ true
  unfolding subscribed_connections is_subscribed find_connection
  IsIn-subscribed q [] v i = absurd i
  IsIn-subscribed q (e ∷ es) v i =
      let later : IsIn q (subscribed_connections s h es)
          → ((h q).peer.conn.is_valid && is_subscribed q s (e ∷ es)) ≡ true =
        λ j. elim (ℕ_discrete e.0 q) [
          | yes same ↦
              ground (arith, IsIn-subscribed q es v.1 j, ap (λ k. find_connection k es) same, v.0)
          | no other ↦ ground (arith, other, IsIn-subscribed q es v.1 j)
        ] in
      elim (Bool-cases ((h e.0).peer.conn.is_valid && contains s e.1)) [
        | inl y ↦ elim (rw y at i) [ inl same ↦ rw same (ground (arith, y)) | inr j ↦ later j ]
        | inr n ↦ later (rw n at i)
      ]

  subscribed-IsIn :
      (q : ℕ) (es : Connections)
      → ((h q).peer.conn.is_valid && is_subscribed q s es) ≡ true
      → IsIn q (subscribed_connections s h es)
  unfolding subscribed_connections is_subscribed find_connection
  subscribed-IsIn q [] i = absurd (ground (arith, i))
  subscribed-IsIn q (e ∷ es) i =
      let rest = subscribed-IsIn q es in
      elim (ℕ_discrete q e.0) [
        | yes same ↦
            let y : ((h e.0).peer.conn.is_valid && contains s e.1) ≡ true =
              ground (arith, rw same at i) in
            rw y (inl same)
        | no other ↦
            let j = rest (ground (arith, other, i)) in
            elim (Bool-cases ((h e.0).peer.conn.is_valid && contains s e.1)) [
              | inl y ↦ rw y (inr j)
              | inr n ↦ rw n j
            ]
      ]

  subscribed-NotIn :
      (p : ℕ) (es : Connections)
      → find_connection p es ≡ none
      → NotIn p (subscribed_connections s h es)
  unfolding subscribed_connections find_connection
  subscribed-NotIn p [] i = tt
  subscribed-NotIn p (e ∷ es) i = elim (ℕ_discrete e.0 p) [
    | yes same ↦ absurd (ground (arith, same, i))
    | no other ↦
        let rest = subscribed-NotIn p es (ground (arith, other, i)) in
        elim (Bool-cases ((h e.0).peer.conn.is_valid && contains s e.1)) [
          | inl y ↦ rw y (λ z. other (sym z), rest)
          | inr n ↦ rw n rest
        ]
  ]

  subscribed-Distinct : (es : Connections) → IsTable es → Distinct (subscribed_connections s h es)
  unfolding subscribed_connections
  subscribed-Distinct [] v = tt
  subscribed-Distinct (e ∷ es) v =
      elim (Bool-cases ((h e.0).peer.conn.is_valid && contains s e.1)) [
        | inl y ↦ rw y (subscribed-NotIn e.0 es v.0, subscribed-Distinct es v.1)
        | inr n ↦ rw n (subscribed-Distinct es v.1)
      ]

add_buscriptions-heap :
    (p : ℕ) (symbols : List Str) (d : DeltaDispatcher)
    → (add_buscriptions p symbols d).heap ≡ d.heap
unfolding add_buscriptions subscribe_found
add_buscriptions-heap p symbols d = ground arith

and_iff : (a b : Bool) → ((a && b) ≡ true) ↔ ((a ≡ true) × (b ≡ true))
and_iff true b = (λ h. (refl, h), λ t. t.1)
and_iff false b = (λ h. cc, λ t. t.0)

-- After a subscription of a registered connection, get_subscribed_connections has exactly the connections
-- that are open and had the symbol before or, for that connection, have it among the new ones.
pub get_subscribed_connections-add_buscriptions :
    (p q : ℕ) (s : Str) (symbols ss : List Str) (d : DeltaDispatcher)
    → IsDispatcher d
    → find_connection p d.connections ≡ some ss
    → IsIn q (get_subscribed_connections s (add_buscriptions p symbols d)) ↔ (
        ((d.heap q).peer.conn.is_valid ≡ true)
        × ((if p == q
              then contains s symbols || is_subscribed q s d.connections
              else is_subscribed q s d.connections)
            ≡ true))
unfolding get_subscribed_connections
get_subscribed_connections-add_buscriptions p q s symbols ss d v h =
    let d' = add_buscriptions p symbols d in
    let v' = add_buscriptions-IsDispatcher p symbols d v in
    let e = is_subscribed-add_buscriptions p q s symbols ss d h in
    let same = add_buscriptions-heap p symbols d in
    (
      λ i. (and_iff _ _).0 (
          rw (ap (λ g. (g q).peer.conn.is_valid) same, e) at
            (IsIn-subscribed s d'.heap q d'.connections v'.distinct i)),
      λ t.
          subscribed-IsIn s d'.heap q d'.connections
            (rw (ap (λ g. (g q).peer.conn.is_valid) same, e) ((and_iff _ _).1 t)),
    )

-- What a publication has done: whom it reached, and that it left the other connections and the table alone.
pub record Published (calls : ℕ → Call) (m : MdDelta) (d : DeltaDispatcher)
    (r : Bool × ℕ × DeltaDispatcher) : Type 0 where
  pub reached :
      Reached calls (delta_msg m) d.heap (get_subscribed_connections m.symbol d) r.0 r.2.heap
  pub others : (q : ℕ) → (r.2.heap q ≡ d.heap q) ⊎ IsIn q (get_subscribed_connections m.symbol d)
  pub table : r.2.connections ≡ d.connections

publish_result :
    (calls : ℕ → Call) (m : MdDelta) (d : DeltaDispatcher) (o : Option Publication)
    → Done
        (λ r.
          Reached calls (delta_msg m) d.heap (get_subscribed_connections m.symbol d) r.ok r.heap
          × ((q : ℕ) → (r.heap q ≡ d.heap q) ⊎ IsIn q (get_subscribed_connections m.symbol d)))
        o
    → Completes
        (Published calls m d)
        (elim o [ none ↦ none | some r ↦ some (r.ok, r.sleeps, record d { heap = r.heap }) ])
publish_result calls m d none r = r
publish_result calls m d (some r) (reached, others) = record {
  reached = reached;
  others = others;
  table = refl;
}

-- On sockets that take a record whole or not at all, publish of a delta that fits the records of the
-- connections that are open and subscribed to its symbol returns: true, and each of them has the packet with
-- its next session index behind its stream or was throttled and drops it whole, or false, and one of them is
-- closed. No other connection changes, and no subscription.
pub publish-Published :
    (answer : ℕ → ℕ → ℕ → SendResult)
    → ((p i n : ℕ) → IsWhole n (answer p i n))
    → (fuel : ℕ) (cfg : HbCfg) (now : ℕ) (calls : ℕ → Call) (m : MdDelta) (d : DeltaDispatcher)
    → IsDispatcher d
    → All
        (λ p. CanSend fuel (calls p) (delta_msg m) (d.heap p).peer)
        (get_subscribed_connections m.symbol d)
    → Completes (Published calls m d) (publish answer fuel cfg now calls m d)
unfolding publish
publish-Published answer whole fuel cfg now calls m d v can =
    let ps = get_subscribed_connections m.symbol d in
    publish_result calls m d
      (publish_each answer fuel cfg now calls (delta_msg m) (length ps) ps 0 0 d.heap)
      (publish_each-Done answer whole fuel cfg now calls (delta_msg m) (length ps) d.heap ps 0 0
        d.heap
        (unfold get_subscribed_connections in
          subscribed-Distinct m.symbol d.heap d.connections v.distinct)
        can (SameAt-refl d.heap ps))
