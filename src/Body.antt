-- ===== src/Body.antt =====
-- application.go: `sendBody` and `receiveBody`, and the same loops in `transfer` of server.go.
-- A size is an int64 that the callers have found not to be negative; it is a number here. Each
-- `ctx.Err()` takes its answer from a list; from where that ends the context is not cancelled.
pub mod Wire
pub mod Sending
pub mod Receiving
pub mod RoundTrip
pub mod Fuel
use deep_protocol.Base.{
  ℕ, zero, suc, ◌+◌, ◌-◌, ◌≡◌, min, Bool, true, false, not, ◌&&◌, ◌||◌, List, [], ◌∷◌, ◌++◌, Bytes,
  length, codes, equal, ltb, ◌==◌, if◌then◌else◌, Option, none, some, Error, protocol, remote, eof,
  out_of_fuel, RemoteError, String, Result, ok, err, reject_if,
}
use deep_protocol.Base.Int.{ℤ, pos, eq_ℤ}
use deep_protocol.Io.{Exec, ◌>>=◌, ◌>>◌, pure, lift, raise, Stream, read_full, Writer}
use deep_protocol.Frame
use deep_protocol.Frame.{
  Frame, MessageType, chunk, ending, max_chunk_size, read_frame, send, write_all,
}
use deep_protocol.Messages.{Library, EndMetadata, decode_empty, decode_end, expect}

-- A connection: what comes in, what goes out, and the answers of `ctx.Err()` on the way.
pub record Link : Type 0 where
  pub input : Stream
  pub output : Writer
  pub checks : List (Option Error)

-- A link and the file that is sent over it or written from it.
pub record Upload : Type 0 where
  pub link : Link
  pub source : Stream

pub record Download : Type 0 where
  pub link : Link
  pub destination : Writer

abbrev pub take_check : List (Option Error) → Result (Unit {0}) × List (Option Error)
take_check [] = (ok tt, [])
take_check (none ∷ rest) = (ok tt, rest)
take_check (some e ∷ rest) = (err e, rest)

-- `ctx.Err()`
unfoldable pub check_context : Exec Link (Unit {0})
check_context l = let (r, rest) = take_check l.checks in (r, record l { checks = rest })

unfoldable pub on_output : {A : Type 0} → Exec Writer A → Exec Link A
on_output m l = let (r, w) = m l.output in (r, record l { output = w })

unfoldable pub on_input : {A : Type 0} → Exec Stream A → Exec Link A
on_input m l = let (r, s) = m l.input in (r, record l { input = s })

unfoldable pub uploading : {A : Type 0} → Exec Link A → Exec Upload A
uploading m u = let (r, l) = m u.link in (r, record u { link = l })

unfoldable pub downloading : {A : Type 0} → Exec Link A → Exec Download A
downloading m d = let (r, l) = m d.link in (r, record d { link = l })

abbrev pub resource_changed : Bytes → Error
resource_changed message = remote (record { code = codes "RESOURCE_CHANGED"; message = message })

abbrev or_changed : Bytes → Result Bytes → Result Bytes
or_changed message (ok a) = ok a
or_changed message (err e) = err (resource_changed message)

-- `io.ReadFull` from the source, any error of which means that the source has changed.
unfoldable pub read_source : Bytes → ℕ → Exec Upload Bytes
read_source message n u =
    let (r, s) = read_full n u.source in (or_changed message r, record u { source = s })

abbrev at_eof : Result Bytes → Bool
at_eof (err eof) = true
at_eof _ = false

-- `n, err := io.ReadFull(body, extra[:])` must find nothing and io.EOF.
unfoldable pub expect_eof : Bytes → Exec Upload (Unit {0})
expect_eof message u =
    let (r, s) = read_full 1 u.source in
    (if at_eof r then ok tt else err (resource_changed message), record u { source = s })

-- The texts in which the receiving loops of application.go and client.go differ.
pub record Texts : Type 0 where
  pub other_request : String
  pub mismatch : String

abbrev pub body_texts : Texts
body_texts = record {
  other_request = "body request ID mismatch";
  mismatch = "body size or SHA-256 mismatch";
}

module _ (lib : Library) where
  -- The loop `for total < size`; `hashed` is what the hash was given. The fuel is no less than
  -- the rounds left: each sends a byte at least.
  unfoldable pub send_chunks : ℕ → Bytes → ℕ → ℕ → ℕ → Bytes → Exec Upload (ℕ × Bytes)
  send_chunks zero message id size total hashed =
      if ltb total size then raise out_of_fuel else pure (total, hashed)
  send_chunks (suc fuel) message id size total hashed = elim (ltb total size) [
    | false ↦ pure (total, hashed)
    | true ↦ do
      uploading check_context
      part ← read_source message (min max_chunk_size (size - total))
      uploading (on_output (send lib.json chunk id (lib.empty.marshal tt) part))
      send_chunks fuel message id size (total + length part) (hashed ++ part)
  ]

  -- `short` and `long` are the texts of the two errors, which differ between the callers.
  unfoldable pub send_stream : Bytes → Bytes → ℕ → ℕ → Exec Upload (Unit {0})
  send_stream short long id size = do
    (total, hashed) ← send_chunks size short id size 0 []
    expect_eof long
    uploading (
        on_output (
          send lib.json ending id
            (lib.end.marshal (record { size = pos total; sha256 = lib.sha256 hashed })) []))

  unfoldable pub send_body : ℕ → ℕ → Exec Upload (Unit {0})
  send_body =
      send_stream (codes "body ended before its announced size")
        (codes "body size changed during transfer")

  -- At an END frame: the sizes and the digest must agree.
  unfoldable pub check_end : Texts → ℕ → ℕ → Bytes → Frame → Result Bytes
  check_end texts size received hashed f = elim (decode_end lib f) [
    | err e ↦ err e
    | ok e ↦
        if not (received == size)
          || not (eq_ℤ e.size (pos received))
          || not (equal e.sha256 (lib.sha256 hashed))
        then err (protocol texts.mismatch)
        else ok (lib.sha256 hashed)
  ]

  -- `writeAll(destination, frame.Body)`
  unfoldable pub on_destination : Bytes → Exec Download (Unit {0})
  on_destination bytes d =
      let (r, w) = write_all bytes d.destination in (r, record d { destination = w })

  -- A DATA frame: no more bytes than were announced.
  unfoldable pub check_data : ℕ → ℕ → Frame → Result (Unit {0})
  check_data size received f = elim (decode_empty lib f) [
    | err e ↦ err e
    | ok _ ↦
        reject_if (ltb (size - received) (length f.body))
          (protocol "received more bytes than announced")
  ]

  -- One frame of a body; `go_on` is the loop from the next one on.
  unfoldable pub on_frame :
      Texts → (ℕ → Bytes → Exec Download Bytes) → ℕ → ℕ → ℕ → Bytes → Frame → Exec Download Bytes
  on_frame texts go_on id size received hashed f = elim (not (f.request_id == id)) [
    | true ↦ raise (protocol texts.other_request)
    | false ↦ elim (f.kind == chunk) [
      | true ↦ do
        lift (check_data size received f)
        on_destination f.body
        go_on (received + length f.body) (hashed ++ f.body)
      | false ↦ elim (f.kind == ending) [
        | true ↦ do
          digest ← lift (check_end texts size received hashed f)
          downloading check_context
          pure digest
        | false ↦ elim (f.kind == Frame.error) [
          | true ↦ do lift (expect lib f ending id); pure []
          | false ↦ raise (protocol "expected DATA or END")
        ]
      ]
    ]
  ]

  -- The loop over the frames of a body. Each takes a byte at least from the input, which bounds
  -- the fuel.
  unfoldable pub receive_chunks : Texts → ℕ → ℕ → ℕ → ℕ → Bytes → Exec Download Bytes
  receive_chunks texts zero id size received hashed = raise out_of_fuel
  receive_chunks texts (suc fuel) id size received hashed = do
    f ← downloading (on_input (read_frame lib.json))
    on_frame texts (receive_chunks texts fuel id size) id size received hashed f

  unfoldable pub receive_stream : Texts → ℕ → ℕ → Exec Download Bytes
  receive_stream texts id size d =
      receive_chunks texts (suc (length d.link.input.bytes)) id size 0 [] d

  unfoldable pub receive_body : ℕ → ℕ → Exec Download Bytes
  receive_body = receive_stream body_texts
