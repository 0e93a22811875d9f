-- ===== src/Proxy.antt =====
-- proxy.go: the bounded control frames, `WriteProxyMessage` and `ReadProxyMessage`. The decoding of
-- their JSON, `DecodeConfigJSON` into the type of the value, is an argument.
pub mod RoundTrip
pub mod Handshake
pub mod Connect
pub mod Pinned
use deep_protocol.Base.{
  ℕ, ◌+◌, ◌%◌, ◌^◌, Bool, true, false, not, ◌||◌, List, [], ◌∷◌, ◌++◌, Bytes, length, take, drop,
  codes, equal, ltb, ◌==◌, Error, failure, Result, ok, err, reject_if,
}
use deep_protocol.Io.{Exec, ◌>>=◌, ◌>>◌, lift, Stream, Writer, read_full}
use deep_protocol.Frame.{put_uint32, uint32, write_all}

abbrev pub proxy_magic : Bytes
proxy_magic = codes "DPRX0001"

abbrev pub max_proxy_message : ℕ
max_proxy_message = 4096

-- `marshaled` is what `json.Marshal` of the value returns.
unfoldable pub write_proxy_message : Result Bytes → Exec Writer (Unit {0})
unfolding put_uint32
write_proxy_message marshaled = do
  raw ← lift marshaled
  lift (
      reject_if (length raw == 0 || ltb max_proxy_message (length raw))
        (failure "proxy message exceeds 4096 bytes"))
  write_all (proxy_magic ++ put_uint32 (length raw % 2 ^ 32))
  write_all raw

unfoldable pub read_proxy_message : {A : Type 0} → (Bytes → Result A) → Exec Stream A
read_proxy_message decode = do
  header ← read_full 12
  let size = uint32 (drop 8 header)
  lift (
      reject_if (not (equal (take 8 header) proxy_magic) || size == 0 || ltb max_proxy_message size)
        (failure "invalid native DEEP proxy frame"))
  raw ← read_full size
  lift (decode raw)
