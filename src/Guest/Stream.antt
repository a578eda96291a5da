-- ===== src/Guest/Stream.antt =====
-- crates/crosspuck-core/src/transport/mod.rs: a stream of one channel, over a TCP stream of the
-- standard library. The reader and the writer are those of `read_frame` and `write_frame`;
-- `refuses` is what the system answers to the setting of a timeout. What a timeout does is in the
-- failures that the reader and the writer hold.
use crosspuck.Base.{ℕ, Option, none, some}
use crosspuck.Base.Result.{ok, err, map_err}
use crosspuck.Base.Action.{Action}
use crosspuck.Protocol.Frame.{Channel}
use crosspuck.Protocol.Frame.Header.{Frame}
use crosspuck.Protocol.Frame.Io
use crosspuck.Protocol.Frame.Io.{IoError, Reader, Writer}
use crosspuck.Guest.Session.{TransportError, io, frame}

pub record ChannelStream : Type 0 where
  pub channel : Channel
  pub reader : Reader
  pub writer : Writer
  pub refuses : Option ℕ → Option IoError
  pub read_timeout : Option ℕ
  pub write_timeout : Option ℕ

unfoldable pub set_read_timeout : Option ℕ → Action TransportError ChannelStream Unit
set_read_timeout timeout s = elim (s.refuses timeout) [
  | none ↦ (ok tt, record s { read_timeout = timeout })
  | some e ↦ (err (io e), s)
]

unfoldable pub set_write_timeout : Option ℕ → Action TransportError ChannelStream Unit
set_write_timeout timeout s = elim (s.refuses timeout) [
  | none ↦ (ok tt, record s { write_timeout = timeout })
  | some e ↦ (err (io e), s)
]

-- `ChannelStream::read_frame`
unfoldable pub read_stream : Action TransportError ChannelStream Frame
read_stream s =
    let (result, rest) = Io.read_frame s.channel s.reader in
    (map_err frame result, record s { reader = rest })

-- `ChannelStream::write_frame`
unfoldable pub write_stream : Frame → Action TransportError ChannelStream Unit
write_stream f s =
    let (result, left) = Io.write_frame f s.channel s.writer in
    (map_err frame result, record s { writer = left })
