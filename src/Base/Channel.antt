-- ===== src/Base/Channel.antt =====
-- A channel with room for one message, which is a list of items: what the two programs that share a
-- memory promise, with no semaphores and no positions.
use mathlib.Core.Path.{◌≡◌}
use mathlib.Core.Logic.{◌⊎◌}
use mathlib.Core.Option.{Option, none, some}
use mathlib.Core.List.{List, ◌++◌}

-- What was put in so far, the message inside, and what was taken out.
pub record Channel (A : Type 0) : Type 0 where
  pub put : List A
  pub slot : Option (List A)
  pub taken : List A

-- A message that is allowed goes into an empty channel, or one goes out of a full one.
pub data ChannelStep {A : Type 0} (Allowed : List A → Type 0) (a b : Channel A) : Type 0 where
  puts :
      (c : List A)
      → a.slot ≡ none
      → Allowed c
      → b ≡ record { put = a.put ++ c; slot = some c; taken = a.taken }
      → ChannelStep Allowed a b
  takes :
      (c : List A)
      → a.slot ≡ some c
      → b ≡ record { put = a.put; slot = none; taken = a.taken ++ c }
      → ChannelStep Allowed a b

-- What a step of a program may be for the channel.
abbrev pub Simulates : {A : Type 0} → (List A → Type 0) → (a b : Channel A) → Type 0
Simulates Allowed a b = (b ≡ a) ⊎ ChannelStep Allowed a b
