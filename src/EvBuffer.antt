-- ===== src/EvBuffer.antt =====
-- The calls of libevent's evbuffer that TcpConnection::read_connection_buffer makes
-- (src/tcp_connection.cpp), as an interface, and their documented behaviour.
use data_spinner.Base.{
  ℕ, ◌≤◌, ◌≡◌, refl, arith, Option, none, some, List, ltb, if◌then◌else◌, length, take, drop,
}

pub record EvBuffer : Type 1 where
  pub Buf : Type 0
  pub evbuffer_get_length : Buf → ℕ
  -- The bytes that are copied out; the buffer stays.
  pub evbuffer_copyout : ℕ → Buf → List ℕ
  pub evbuffer_drain : ℕ → Buf → Buf
  -- The bytes that are removed, or `none` for the result -1.
  pub evbuffer_remove : ℕ → Buf → Option (List ℕ × Buf)

-- A buffer is the sequence of its bytes: calls that ask for no more than it holds take them off its
-- front, and do not fail.
pub record IsEvBuffer (e : EvBuffer) : Type 0 where
  pub bytes : e.Buf → List ℕ
  pub get_length : (b : e.Buf) → e.evbuffer_get_length b ≡ length (bytes b)
  pub copyout :
      (n : ℕ) (b : e.Buf) → n ≤ length (bytes b) → e.evbuffer_copyout n b ≡ take n (bytes b)
  pub drain :
      (n : ℕ) (b : e.Buf) → n ≤ length (bytes b) → bytes (e.evbuffer_drain n b) ≡ drop n (bytes b)
  pub remove :
      (n : ℕ) (b : e.Buf)
      → n ≤ length (bytes b)
      → (b' : e.Buf) × (e.evbuffer_remove n b ≡ some (take n (bytes b), b'))
        × (bytes b' ≡ drop n (bytes b))

-- A list is such a buffer.
abbrev pub list_buffer : EvBuffer
list_buffer = record {
  Buf = List ℕ;
  evbuffer_get_length = λ b. length b;
  evbuffer_copyout = λ n b. take n b;
  evbuffer_drain = λ n b. drop n b;
  evbuffer_remove = λ n b. if ltb (length b) n then none else some (take n b, drop n b);
}

pub list_remove :
    (n : ℕ) (b : List ℕ)
    → n ≤ length b
    → list_buffer.evbuffer_remove n b ≡ some (take n b, drop n b)
list_remove n b h = ground arith

abbrev pub list_buffer_laws : IsEvBuffer list_buffer
list_buffer_laws = record {
  bytes = λ b. b;
  get_length = λ b. refl;
  copyout = λ n b h. refl;
  drain = λ n b h. refl;
  remove = λ n b h. (drop n b, list_remove n b h, refl);
}
