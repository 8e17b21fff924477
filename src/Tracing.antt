-- ===== src/Tracing.antt =====
-- src/tracing_revm.rs: which storage a block changed, by its logs and by reads of the pools' slots.
-- The answers of the node are parameters: the logs of each attempt, and the storage reads.
pub mod Effect
use arb_bot.Prelude.{
  ℕ, Bool, true, false, List, [], ◌∷◌, Option, none, some, if◌then◌else◌, unwrap_or, take, ◌>>=◌,
  nat_eq, lookup, insert, contains,
}
use arb_bot.Swap.Path.{Address}
use arb_bot.StateDb.Store.{add_to}

pub record BlockTraceDiffs : Type 0 where
  pub block_number : ℕ
  pub diffs : List (Address × List (ℕ × ℕ))
  pub touched_addresses : List Address

abbrev pub new : ℕ → BlockTraceDiffs
new block_number = record { block_number = block_number; diffs = []; touched_addresses = [] }

abbrev pub slots_of : Address → List (Address × List (ℕ × ℕ)) → List (ℕ × ℕ)
slots_of address diffs = unwrap_or (lookup address diffs) []

unfoldable pub add_diff : BlockTraceDiffs → Address → ℕ → ℕ → BlockTraceDiffs
add_diff d address slot new_value = record d {
  touched_addresses = add_to address d.touched_addresses;
  diffs = insert address (insert slot new_value (slots_of address d.diffs)) d.diffs;
}

unfoldable pub get_address_diffs : BlockTraceDiffs → Address → Option (List (ℕ × ℕ))
get_address_diffs d address = lookup address d.diffs

-- The inner loops over the slots of one address.
unfoldable pub add_diffs : BlockTraceDiffs → Address → List (ℕ × ℕ) → BlockTraceDiffs
add_diffs d address [] = d
add_diffs d address ((slot, value) ∷ pairs) =
    add_diffs (add_diff d address slot value) address pairs

-- The loop of `filter_tracked` over the touched addresses.
unfoldable pub filter_addresses :
    BlockTraceDiffs → List Address → List Address → BlockTraceDiffs → BlockTraceDiffs
filter_addresses d tracked [] filtered = filtered
filter_addresses d tracked (addr ∷ addrs) filtered =
    filter_addresses d tracked addrs
      (if contains addr tracked then add_diffs filtered addr (slots_of addr d.diffs) else filtered)

unfoldable pub filter_tracked : BlockTraceDiffs → List Address → BlockTraceDiffs
filter_tracked d tracked = filter_addresses d tracked d.touched_addresses (new d.block_number)

-- The first topic of a log.
pub data Topic : Type 0 where
  v3_swap v2_sync_u112 v2_sync_u256 other : Topic

abbrev pub is_v3_topic : Topic → Bool
is_v3_topic v3_swap = true
is_v3_topic v2_sync_u112 = false
is_v3_topic v2_sync_u256 = false
is_v3_topic other = false

-- A log of the answer: its address, if it is one, and its topic.
pub record Log : Type 0 where
  pub address : Option Address
  pub topic0 : Topic

-- Whether a touched pool has a log of a V3 swap: one round of the loop over the logs. Only such a log
-- changes an entry that is there.
abbrev pub touch_at :
    List Address → Topic → Option Address → List (Address × Bool) → List (Address × Bool)
touch_at tracked topic none touched = touched
touch_at tracked topic (some addr) touched =
    if contains addr tracked
    then insert addr (if is_v3_topic topic then true else unwrap_or (lookup addr touched) false)
        touched
    else touched

unfoldable pub classify : List Address → List Log → List (Address × Bool) → List (Address × Bool)
classify tracked [] touched = touched
classify tracked (log ∷ logs) touched =
    classify tracked logs (touch_at tracked log.topic0 log.address touched)

abbrev pub key_slots : Bool → List ℕ
key_slots is_v3 = if is_v3 then 0 ∷ 4 ∷ [] else 8 ∷ []

-- The first answer of the three attempts.
abbrev pub first_answer : List (Option (List Log)) → Option (List Log)
first_answer [] = none
first_answer (none ∷ attempts) = first_answer attempts
first_answer (some logs ∷ attempts) = some logs

module _ (get_storage_at_raw : Address → ℕ → Option ℕ) where
  abbrev pub push_read : ℕ → Option ℕ → List (ℕ × ℕ) → List (ℕ × ℕ)
  push_read slot none pairs = pairs
  push_read slot (some v) pairs = (slot, v) ∷ pairs

  -- The reads of one pool; one that fails is left out.
  unfoldable pub fetch : Address → List ℕ → List (ℕ × ℕ)
  fetch address [] = []
  fetch address (slot ∷ slots) =
      push_read slot (get_storage_at_raw address slot) (fetch address slots)

  unfoldable pub collect : List (Address × Bool) → BlockTraceDiffs → BlockTraceDiffs
  collect [] d = d
  collect ((address, is_v3) ∷ touched) d =
      collect touched (add_diffs d address (fetch address (key_slots is_v3)))

  -- `none` is the error that no attempt was answered.
  unfoldable pub trace_block_diffs :
      List (Option (List Log)) → ℕ → List Address → Option BlockTraceDiffs
  trace_block_diffs attempts block_number tracked_pools = do
    logs ← first_answer (take 3 attempts)
    some (collect (classify tracked_pools logs []) (new block_number))
