-- ===== src/Dispatcher/Table.antt =====
-- The table of connections of DeltaDispatcher (src/tcp_publisher.cpp).
use data_spinner.Base.{
  ℕ, ◌==◌, ◌≡◌, ◌≢◌, inl, inr, refl, sym, ◌∙◌, ap, arith, none, some, List, [], ◌∷◌, if◌then◌else◌,
  length, Option-cases,
}
use data_spinner.Records.{Str, u16}
use data_spinner.Dispatcher.{
  MdServerConnection, Connections, DeltaDispatcher, find_connection, put_connection,
  erase_connection, create_connection, dispose_connection, subscribe_found, add_buscriptions,
  insert_all,
}

-- No two entries have the same pointer.
abbrev pub IsTable : Connections → Type 0
IsTable [] = Unit
IsTable (e ∷ es) = (find_connection e.0 es ≡ none) × IsTable es

-- The table has each connection once, and the counter is its size, as a uint16_t.
pub record IsDispatcher (d : DeltaDispatcher) : Type 0 where
  pub distinct : IsTable d.connections
  pub counted : d.connections_count ≡ u16 (length d.connections)

pub find-put :
    (q p : ℕ) (ss : List Str) (es : Connections)
    → find_connection q (put_connection p ss es)
      ≡ (if p == q then some ss else find_connection q es)
unfolding find_connection put_connection
find-put q p ss [] = ground arith
find-put q p ss (e ∷ es) = ground (arith, find-put q p ss es)

put-IsTable :
    (p : ℕ) (ss : List Str) (es : Connections) → IsTable es → IsTable (put_connection p ss es)
unfolding put_connection
put-IsTable p ss [] v = (unfold find_connection in refl, tt)
put-IsTable p ss (e ∷ es) v = ground (arith, find-put e.0 p ss es, put-IsTable p ss es v.1, v.0)

length-put :
    (p : ℕ) (ss : List Str) (es : Connections)
    → find_connection p es ≢ none
    → length (put_connection p ss es) ≡ length es
unfolding find_connection put_connection
length-put p ss [] h = absurd (h refl)
length-put p ss (e ∷ es) h = ground (arith, length-put p ss es)

find-erase_none :
    (q p : ℕ) (es : Connections)
    → find_connection q es ≡ none
    → find_connection q (erase_connection p es) ≡ none
unfolding find_connection erase_connection
find-erase_none q p [] h = refl
find-erase_none q p (e ∷ es) h = ground (arith, find-erase_none q p es)

erase-IsTable : (p : ℕ) (es : Connections) → IsTable es → IsTable (erase_connection p es)
unfolding erase_connection
erase-IsTable p [] v = tt
erase-IsTable p (e ∷ es) v = ground (arith, find-erase_none e.0 p es v.0, erase-IsTable p es v.1)

pub create_connection-IsDispatcher :
    (p : ℕ) (c : MdServerConnection) (d : DeltaDispatcher)
    → IsDispatcher d
    → IsDispatcher (create_connection p c d)
unfolding create_connection
create_connection-IsDispatcher p c d v = record {
  distinct = put-IsTable p [] d.connections v.distinct;
  counted = refl;
}

pub dispose_connection-IsDispatcher :
    (p : ℕ) (d : DeltaDispatcher) → IsDispatcher d → IsDispatcher (dispose_connection p d)
unfolding dispose_connection
dispose_connection-IsDispatcher p d v = record {
  distinct = erase-IsTable p d.connections v.distinct;
  counted = refl;
}

pub add_buscriptions-IsDispatcher :
    (p : ℕ) (symbols : List Str) (d : DeltaDispatcher)
    → IsDispatcher d
    → IsDispatcher (add_buscriptions p symbols d)
unfolding add_buscriptions subscribe_found
add_buscriptions-IsDispatcher p symbols d v =
    elim (Option-cases (find_connection p d.connections)) [
      | inl e ↦ rw e v
      | inr (ss, e) ↦ rw e (record {
        distinct = put-IsTable p (insert_all symbols ss) d.connections v.distinct;
        counted =
            v.counted ∙ ap u16 (sym (length-put p (insert_all symbols ss) d.connections (λ z. cc)));
      })
    ]
