-- ===== src/Proxy/RoundTrip.antt =====
-- A control frame is read back as it was written.
use deep_protocol.Base.{
  ℕ, ◌%◌, ◌^◌, ◌≡◌, ◌≤◌, ◌<◌, refl, true, false, ◌||◌, [], ◌++◌, append_assoc, Bytes, length, take,
  drop, equal, ltb, ◌==◌, Error, Result, ok, arith,
}
use deep_protocol.Io.{read_full-append}
use deep_protocol.Frame.{put_uint32, uint32}
use deep_protocol.Frame.Sends.{write_all-reliable}
use deep_protocol.Proxy.{proxy_magic, write_proxy_message, read_proxy_message}

-- The bytes of a control frame.
abbrev pub message : Bytes → Bytes
message raw = (proxy_magic ++ put_uint32 (length raw)) ++ raw

write_message_lem :
    (raw sent : Bytes)
    → 1 ≤ length raw
    → length raw ≤ 4096
    → write_proxy_message (ok raw) (record { sent = sent; answers = [] })
      ≡ (ok tt, record { sent = sent ++ message raw; answers = [] })
unfolding write_proxy_message
write_message_lem raw sent lo hi =
    let fits : (length raw == 0 || ltb 4096 (length raw)) ≡ false = ground arith in
    let m : length raw % 2 ^ 32 ≡ length raw = omega arith in
    rw (fits, m, write_all-reliable, write_all-reliable, append_assoc)

magic_there : (n : ℕ) → equal (take 8 (proxy_magic ++ put_uint32 n)) proxy_magic ≡ true
unfolding equal put_uint32
magic_there n = refl

size_there : (n : ℕ) → n < 2 ^ 32 → uint32 (drop 8 (proxy_magic ++ put_uint32 n)) ≡ n
unfolding uint32 put_uint32
size_there n h = omega arith

length_there : (n : ℕ) → length (proxy_magic ++ put_uint32 n) ≡ 12
unfolding put_uint32
length_there n = refl

read_message_lem :
    {A : Type 0} (decode : Bytes → Result A) (raw rest : Bytes) (fault : Error)
    → 1 ≤ length raw
    → length raw ≤ 4096
    → read_proxy_message decode (record { bytes = message raw ++ rest; fault = fault })
      ≡ (decode raw, record { bytes = rest; fault = fault })
unfolding read_proxy_message
read_message_lem decode raw rest fault lo hi =
    let header = proxy_magic ++ put_uint32 (length raw) in
    let first = read_full-append 12 header (raw ++ rest) fault (length_there (length raw)) in
    let second = read_full-append (length raw) raw rest fault refl in
    let fits : (length raw == 0 || ltb 4096 (length raw)) ≡ false = ground arith in
    rw (
      append_assoc,
      first,
      magic_there (length raw),
      size_there (length raw) (omega arith),
      fits,
      second,
    )

-- For a marshaled value of 1 to 4096 bytes and a writer that does not fail, WriteProxyMessage
-- sends one control frame, and ReadProxyMessage takes exactly that frame and decodes those bytes.
pub read_proxy_message-write_proxy_message :
    {A : Type 0} (decode : Bytes → Result A) (raw sent rest : Bytes) (fault : Error)
    → 1 ≤ length raw
    → length raw ≤ 4096
    → (write_proxy_message (ok raw) (record { sent = sent; answers = [] })
        ≡ (ok tt, record { sent = sent ++ message raw; answers = [] }))
      × (read_proxy_message decode (record { bytes = message raw ++ rest; fault = fault })
          ≡ (decode raw, record { bytes = rest; fault = fault }))
read_proxy_message-write_proxy_message decode raw sent rest fault lo hi =
    (write_message_lem raw sent lo hi, read_message_lem decode raw rest fault lo hi)
