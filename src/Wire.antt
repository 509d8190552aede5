-- ===== src/Wire.antt =====
-- The encrypted connection of internal/crypto/wrap.go: the records that Write makes and the framing
-- of Read. The cipher is an argument, and so are the bytes that the connection has for the calls of Read.
-- Read takes them in any portions and keeps what it has of a record over a timeout, so that its framing
-- is a machine that accepts one byte after another.
pub mod Records
pub mod Roundtrip
use llm_cluster_router.Prelude.{
  ℕ, zero, suc, ◌+◌, ◌*◌, ◌/◌, ◌%◌, ◌^◌, List, [], ◌∷◌, ◌++◌, Option, none, some, Bool, true, false,
  ◌&&◌, ltb, leb, if◌then◌else◌, length, take, drop,
}

-- `cipher.AEAD`: the sealed text for a nonce, and its opening.
pub record Aead : Type 0 where
  pub seal : List ℕ → List ℕ → List ℕ
  pub open_sealed : List ℕ → List ℕ → Option (List ℕ)

-- `maxFrame`, `nonceSize`, `gcmTagSize` and `maxRecord`.
abbrev pub max_frame : ℕ
max_frame = 65_536

abbrev pub nonce_size : ℕ
nonce_size = 12

abbrev pub gcm_tag_size : ℕ
gcm_tag_size = 16

abbrev pub max_record : ℕ
max_record = 65_564

-- `binary.BigEndian.PutUint32` and `Uint32`.
unfoldable pub put_uint32 : ℕ → List ℕ
put_uint32 n = n / 16_777_216 % 256 ∷ n / 65_536 % 256 ∷ n / 256 % 256 ∷ n % 256 ∷ []

unfoldable pub uint32_from : ℕ → List ℕ → ℕ
uint32_from acc [] = acc
uint32_from acc (b ∷ bs) = uint32_from (acc * 256 + b) bs

module _ (a : Aead) where
  -- `writeRecord`: the bytes of a record under its nonce.
  unfoldable pub write_record : List ℕ → List ℕ → List ℕ
  unfolding put_uint32
  write_record nonce chunk =
      let sealed = nonce ++ a.seal nonce chunk in put_uint32 (length sealed) ++ sealed

  -- The loop of `Write` from record `k` on, with as many records left as the fuel says. `nonces` are
  -- the random ones.
  unfoldable pub write_from : (ℕ → List ℕ) → ℕ → ℕ → List ℕ → List ℕ
  unfolding write_record
  write_from nonces k zero p = []
  write_from nonces k (suc fuel) p =
      let rest = write_from nonces (k + 1) fuel (drop max_frame p) in
      write_record (nonces k) (take max_frame p) ++ (if leb (length p) max_frame then [] else rest)

  -- `Write`.
  unfoldable pub write : (ℕ → List ℕ) → List ℕ → List ℕ
  unfolding write_from
  write nonces p = write_from nonces 0 (suc (length p)) p

-- The framing of a `WrapConn`: the header so far, or the length of the frame and its bytes.
pub data Framing : Type 0 where
  in_header : List ℕ → Framing
  in_frame : ℕ → List ℕ → Framing

-- The fields `hdr`, `hdrN`, `frame` and `frameN`, with `tamperCount`.
pub record Framer : Type 0 where
  pub framing : Framing
  pub tamper_count : ℕ

-- With `readBuf`, the plaintext that did not fit into a caller's buffer.
pub record Reader : Type 0 where
  pub framer : Framer
  pub read_buf : List ℕ

-- After `resetFraming`.
abbrev pub reset : ℕ → Framer
reset tampers = record { framing = in_header []; tamper_count = tampers }

abbrev pub new_reader : ℕ → Reader
new_reader tampers = record { framer = reset tampers; read_buf = [] }

-- What one byte of the connection completes: nothing, a record that is refused, or a plaintext.
pub data FrameEvent : Type 0 where
  pending refused_record : FrameEvent
  plaintext : List ℕ → FrameEvent

-- The plaintext of a whole frame, or one more tampered record.
unfoldable pub finish_frame : ℕ → Option (List ℕ) → Framer × FrameEvent
finish_frame tampers none = (reset (tampers + 1), refused_record)
finish_frame tampers (some p) = (reset tampers, plaintext p)

-- A length that is 0, too large, or too small for the nonce and the tag is refused.
unfoldable pub check_length : ℕ → ℕ → Framer × FrameEvent
check_length tampers n =
    if leb (nonce_size + gcm_tag_size) n && leb n max_record
    then (record { framing = in_frame n []; tamper_count = tampers }, pending)
    else (reset (tampers + 1), refused_record)

-- How the connection ends behind its bytes: the deadline passes, or the stream is over.
pub data Ending : Type 0 where
  times_out stream_ends : Ending

-- What a call of `Read` answers.
pub data Answer : Type 0 where
  got : List ℕ → Answer
  tampered timed_out ended short_frame : Answer

-- The end of the bytes: a timeout leaves the framing where it got to.
unfoldable pub end_read : Ending → Framer → Framer × Answer
end_read times_out f = (f, timed_out)
end_read stream_ends f = elim f.framing [
  | in_header h ↦ (reset f.tamper_count, ended)
  | in_frame n body ↦ (reset (f.tamper_count + 1), short_frame)
]

module _ (a : Aead) where
  -- One byte that `Read` takes from the connection.
  unfoldable pub accept : ℕ → Framing → ℕ → Framer × FrameEvent
  unfolding finish_frame check_length uint32_from
  accept tampers (in_header h) b =
      if ltb (length (h ++ b ∷ [])) 4
      then (record { framing = in_header (h ++ b ∷ []); tamper_count = tampers }, pending)
      else check_length tampers (uint32_from 0 (h ++ b ∷ []))
  accept tampers (in_frame n f) b =
      if ltb (length (f ++ b ∷ [])) n
      then (record { framing = in_frame n (f ++ b ∷ []); tamper_count = tampers }, pending)
      else finish_frame tampers
          (a.open_sealed (take nonce_size (f ++ b ∷ [])) (drop nonce_size (f ++ b ∷ [])))

  -- The two phases of `Read` and what follows them, for a buffer of this size: the reader, the bytes
  -- that are left on the connection, and the answer. What does not fit is stashed.
  unfoldable pub read_record : Ending → ℕ → Framer → List ℕ → Reader × List ℕ × Answer
  unfolding accept end_read
  read_record end size f [] =
      let (f', answer) = end_read end f in (record { framer = f'; read_buf = [] }, [], answer)
  read_record end size f (b ∷ bs) =
      let x = accept f.tamper_count f.framing b in
      let later = read_record end size x.0 bs in
      elim x.1 [
        | pending ↦ later
        | refused_record ↦ (record { framer = x.0; read_buf = [] }, bs, tampered)
        | plaintext p ↦ (record { framer = x.0; read_buf = drop size p }, bs, got (take size p))
      ]

  -- `Read`: what was stashed comes first.
  unfoldable pub read : Ending → ℕ → Reader → List ℕ → Reader × List ℕ × Answer
  unfolding read_record
  read end zero r bs = (r, bs, got [])
  read end (suc m) r bs = elim r.read_buf [
    | [] ↦ read_record end (suc m) r.framer bs
    | p ∷ ps ↦ (record r { read_buf = drop (suc m) (p ∷ ps) }, bs, got (take (suc m) (p ∷ ps)))
  ]

-- The bytes of an answer.
abbrev pub bytes_of : Answer → List ℕ
bytes_of (got p) = p
bytes_of answer = []

module _ (a : Aead) where
  -- Calls of `Read` with buffers of these sizes: the reader, the bytes left, and what was handed out.
  unfoldable pub read_calls : Ending → List ℕ → Reader → List ℕ → Reader × List ℕ × List ℕ
  unfolding read
  read_calls end [] r bs = (r, bs, [])
  read_calls end (size ∷ sizes) r bs =
      let (r', bs', answer) = read a end size r bs in
      let (r'', bs'', out) = read_calls end sizes r' bs' in (r'', bs'', bytes_of answer ++ out)
