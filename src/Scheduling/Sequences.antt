-- ===== src/Scheduling/Sequences.antt =====
-- Sequences of the service's changes to one appointment, each prepared on whatever was read before.
pub mod Alone
pub mod Whole
use signmons_calldesk_backen.Base.{Option, some, Instant, HttpError, List, [], ◌∷◌}
use signmons_calldesk_backen.Base.Token.{Codec}
use signmons_calldesk_backen.Data.Rows.{Job}
use signmons_calldesk_backen.Data.Store.{Store, Client}
use signmons_calldesk_backen.Scheduling.{Settings, Joined, Active}
use signmons_calldesk_backen.Scheduling.Calendar.{Google, World}
use signmons_calldesk_backen.Scheduling.Confirm.{Booking, TimeWindow, book}
use signmons_calldesk_backen.Scheduling.Cancel.{cancel_active}
use signmons_calldesk_backen.Scheduling.Reschedule.{attempt}

-- A change with the time and what was read for it.
pub data Change : Type 0 where
  booking : Option HttpError → Instant → Booking → Change
  moving : Option HttpError → Instant → Job → Active → TimeWindow → Change
  cancelling : Instant → Job → Active → Change

module _ {J P T U E A K : Type 0} (db : Client J P T U E A) (g : Google K) (c : Codec)
    (settings : Settings) (joins : Job → Joined) where
  abbrev W : Type 0
  W = World (Store J P T U E A) K

  unfoldable pub make : Change → W → W
  unfolding book attempt cancel_active
  make (booking refusal now b) w = (book db g c settings joins refusal now b w).1
  make (moving refusal now j a t) w = (attempt db g settings joins refusal now j a t w).1
  make (cancelling now j a) w = (cancel_active db g settings joins now j (some a) w).1

  -- Whether or not one throws, the next is made on what it left.
  unfoldable pub make_all : List Change → W → W
  unfolding make
  make_all [] w = w
  make_all (x ∷ xs) w = make_all xs (make x w)
