-- ===== src/Channel/Handles/Listening.antt =====
-- What a handle of lib/channel/src/lib.rs may hold as its listener.
use pewpew.Prelude.{◌≡◌, false, Option, none, some}
use pewpew.Channel.Crates.{Deps}

module _ {T : Type 0} (d : Deps T) where
  -- A notice will reach the listener, if one is held.
  abbrev pub HoldsActive : Option d.Listener → d.Event → Type 0
  HoldsActive none e = Unit {0}
  HoldsActive (some l) e = d.IsActive l e

  -- One is held, and a notice will reach it.
  abbrev pub Waits : Option d.Listener → d.Event → Type 0
  Waits none e = ⊥
  Waits (some l) e = d.IsActive l e

  -- One is held that has had no notice.
  abbrev pub Unnotified : Option d.Listener → d.Event → Type 0
  Unnotified none e = ⊥
  Unnotified (some l) e = (d.poll l e).0 ≡ false
