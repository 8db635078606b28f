-- ===== src/Channel/Errors.antt =====
-- The errors of the channel of src/channel.rs, and what they say.
use Prim.Native.String.{String}
use unsend.Base.{refl, none, some, Option, ◌≡◌, arith}
use unsend.Channel.{TryRecv, ok, closed_error, empty_error}

-- `ChannelClosed`, whose field is private.
abbrev pub ChannelClosed : Type 0
ChannelClosed = Unit {0}

pub data TryRecvError : Type 0 where
  closed : TryRecvError
  empty : TryRecvError

-- The error of a result.
abbrev pub error_of : {T : Type 0} → TryRecv T → Option TryRecvError
error_of (ok t) = none
error_of closed_error = some closed
error_of empty_error = some empty

-- `Display` of `ChannelClosed`.
unfoldable pub show_closed : ChannelClosed → String
show_closed e = "channel closed"

-- `Display` and `Error::cause` of `TryRecvError`.
unfoldable pub show_error : TryRecvError → String
show_error closed = "channel closed"
show_error empty = "channel empty"

unfoldable pub cause : TryRecvError → Option ChannelClosed
cause closed = some tt
cause empty = none

-- An error that has a cause says what its cause says.
cause-show :
    (e : TryRecvError) (c : ChannelClosed) → cause e ≡ some c → show_error e ≡ show_closed c
unfolding cause show_error show_closed
cause-show closed c h = refl
cause-show empty c h = absurd (ground (arith, h))
