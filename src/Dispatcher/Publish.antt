-- ===== src/Dispatcher/Publish.antt =====
-- Whom DeltaDispatcher::publish (src/tcp_publisher.cpp) reaches.
use data_spinner.Base.{
  ℕ, ◌+◌, ◌==◌, ◌≡◌, ◌≢◌, ◌⊎◌, inl, inr, refl, sym, ◌∙◌, arith, subst, Bool, true, false, Option,
  none, some, List, [], ◌∷◌, if◌then◌else◌, All,
}
use native.Mathlib.Decide.{ℕ_discrete}
use data_spinner.Message.{Message}
use data_spinner.Queue.{SendResult}
use data_spinner.Queue.Stream.{IsWhole}
use data_spinner.Connection.{Call}
use data_spinner.Session.{Peer, close_peer}
use data_spinner.Session.Sending.{CanSend, Got, Sends-cases, send_to-Sends}
use data_spinner.Dispatcher.{
  MdServerConnection, HbCfg, Heap, update, DeltaDispatcher, Publication, check_heartbeat,
  publish_each,
}

abbrev pub IsIn : ℕ → List ℕ → Type 0
IsIn q [] = ⊥
IsIn q (p ∷ ps) = (q ≡ p) ⊎ IsIn q ps

abbrev pub NotIn : ℕ → List ℕ → Type 0
NotIn q [] = Unit
NotIn q (p ∷ ps) = (q ≢ p) × NotIn q ps

abbrev pub Distinct : List ℕ → Type 0
Distinct [] = Unit
Distinct (p ∷ ps) = NotIn p ps × Distinct ps

NotIn-IsIn : (q : ℕ) (ps : List ℕ) → NotIn q ps → IsIn q ps → ⊥
NotIn-IsIn q [] n i = i
NotIn-IsIn q (p ∷ ps) n i = elim i [ inl e ↦ n.0 e | inr j ↦ NotIn-IsIn q ps n.1 j ]

update_self : (p : ℕ) (c : MdServerConnection) (h : Heap) → update p c h p ≡ c
unfolding update
update_self p c h = ground arith

update_other : (p q : ℕ) (c : MdServerConnection) (h : Heap) → (q ≡ p → ⊥) → update p c h q ≡ h q
unfolding update
update_other p q c h n = ground (arith, n)

-- The connections of a list are the same in both heaps.
abbrev pub SameAt : Heap → Heap → List ℕ → Type 0
SameAt h h₀ = All (λ q. h q ≡ h₀ q)

pub SameAt-refl : (h : Heap) (ps : List ℕ) → SameAt h h ps
SameAt-refl h [] = tt
SameAt-refl h (p ∷ ps) = (refl, SameAt-refl h ps)

update-SameAt :
    (p : ℕ) (c : MdServerConnection) (h h₀ : Heap) (ps : List ℕ)
    → NotIn p ps
    → SameAt h h₀ ps
    → SameAt (update p c h) h₀ ps
update-SameAt p c h h₀ [] n s = tt
update-SameAt p c h h₀ (q ∷ ps) n s =
    (update_other p q c h (λ e. n.0 (sym e)) ∙ s.0, update-SameAt p c h h₀ ps n.1 s.1)

-- The heartbeat check leaves what was sent alone.
check_heartbeat-Got :
    (cfg : HbCfg) (now : ℕ) (call : Call) (m : Message) (before : Peer) (c : MdServerConnection)
    → Got call m before c.peer
    → Got call m before (check_heartbeat cfg now c).peer
unfolding check_heartbeat close_peer
check_heartbeat-Got cfg now call m before c g = ground arith

-- Some connection of the list is closed.
abbrev pub SomeClosed : Heap → List ℕ → Type 0
SomeClosed h [] = ⊥
SomeClosed h (p ∷ ps) = ((h p).peer.conn.is_valid ≡ false) ⊎ SomeClosed h ps

-- All connections of the list got the message, or the publication failed and one of them is closed.
abbrev pub Reached : (ℕ → Call) → Message → Heap → List ℕ → Bool → Heap → Type 0
Reached calls m h ps ok h' =
    ((ok ≡ true) × All (λ p. Got (calls p) m (h p).peer (h' p).peer) ps)
    ⊎ ((ok ≡ false) × SomeClosed h' ps)

-- The loop returns, with such an outcome.
abbrev pub Done : (Publication → Type 0) → Option Publication → Type 0
Done P none = ⊥
Done P (some r) = P r

unchanged :
    (p : ℕ) (ps : List ℕ) (h : Heap) (c : MdServerConnection) (q : ℕ) {d : MdServerConnection}
    → d ≡ update p c h q
    → (d ≡ h q) ⊎ IsIn q (p ∷ ps)
unchanged p ps h c q e = elim (ℕ_discrete q p) [
  | yes same ↦ inr (inl same)
  | no other ↦ inl (e ∙ update_other p q c h other)
]

-- The rounds behind the first, on the heap that it leaves, and the first.
next :
    (calls : ℕ → Call) (m : Message) (h₀ : Heap) (p : ℕ) (ps : List ℕ) (h : Heap)
    (c : MdServerConnection)
    → Distinct (p ∷ ps)
    → Got (calls p) m (h₀ p).peer c.peer
    → (o : Option Publication)
    → Done
        (λ r.
          Reached calls m h₀ ps r.ok r.heap × ((q : ℕ) → (r.heap q ≡ update p c h q) ⊎ IsIn q ps))
        o
    → Done
        (λ r.
          Reached calls m h₀ (p ∷ ps) r.ok r.heap × ((q : ℕ) → (r.heap q ≡ h q) ⊎ IsIn q (p ∷ ps)))
        o
next calls m h₀ p ps h c d got none r = r
next calls m h₀ p ps h c d got (some r) (reached, others) =
    let same : r.heap p ≡ c = elim (others p) [
      | inl e ↦ e ∙ update_self p c h
      | inr i ↦ absurd (NotIn-IsIn p ps d.0 i)
    ] in
    let head : Got (calls p) m (h₀ p).peer (r.heap p).peer =
      subst (λ b. Got (calls p) m (h₀ p).peer b.peer) (sym same) got in
    (
      elim reached [
        | inl (ok, all) ↦ inl (ok, (head, all))
        | inr (no_, some_) ↦ inr (no_, inr some_)
      ],
      λ q. elim (others q) [ inl e ↦ unchanged p ps h c q e | inr i ↦ inr (inr i) ],
    )

-- publish returns, with such an outcome.
abbrev pub Completes :
    (Bool × ℕ × DeltaDispatcher → Type 0) → Option (Bool × ℕ × DeltaDispatcher) → Type 0
Completes P none = ⊥
Completes P (some r) = P r

module _ (answer : ℕ → ℕ → ℕ → SendResult) (whole : (p i n : ℕ) → IsWhole n (answer p i n))
    (fuel : ℕ) (cfg : HbCfg) (now : ℕ) (calls : ℕ → Call) where
  module _ (m : Message) (size : ℕ) (h₀ : Heap) where
    pub publish_each-Done :
        (ps : List ℕ) (throttled sleeps : ℕ) (h : Heap)
        → Distinct ps
        → All (λ p. CanSend fuel (calls p) m (h₀ p).peer) ps
        → SameAt h h₀ ps
        → Done
            (λ r. Reached calls m h₀ ps r.ok r.heap × ((q : ℕ) → (r.heap q ≡ h q) ⊎ IsIn q ps))
            (publish_each answer fuel cfg now calls m size ps throttled sleeps h)
    unfolding publish_each close_peer
    publish_each-Done [] throttled sleeps h d can same = (inl (refl, tt), λ q. inl refl)
    publish_each-Done (p ∷ ps) throttled sleeps h d can same =
        let ready : CanSend fuel (calls p) m (h p).peer =
          subst (λ c. CanSend fuel (calls p) m c.peer) (sym same.0) can.0 in
        elim (Sends-cases (calls p) m (h p).peer _
          (send_to-Sends (answer p) (whole p) fuel (calls p) m (h p).peer ready)) [
            | inl (c, e, got) ↦
                let c₁ = check_heartbeat cfg now (record (h p) { peer = c }) in
                let n = if c.conn.skt.throttle_on then throttled + 1 else throttled in
                rw (e, publish_each)
                  (next calls m h₀ p ps h c₁ d
                    (subst (λ b. Got (calls p) m b.peer c₁.peer) same.0
                      (check_heartbeat-Got cfg now (calls p) m (h p).peer
                        (record (h p) { peer = c }) got))
                    _
                    (publish_each-Done ps n (if n == size then sleeps + 1 else sleeps)
                      (update p c₁ h) d.1 can.1 (update-SameAt p c₁ h h₀ ps d.0 same.1)))
            | inr (c, e, closed) ↦
                rw (e, publish_each)
                  (
                    inr (
                      refl,
                      inl (
                          subst (λ b. b.peer.conn.is_valid ≡ false)
                            (sym (update_self p (record (h p) { peer = close_peer c }) h)) refl),
                    ),
                    λ q. unchanged p ps h (record (h p) { peer = close_peer c }) q refl,
                  )
          ]
