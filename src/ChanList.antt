-- ===== src/ChanList.antt =====
-- The channel list of mux.go: add, getChan, remove and dropAll. A slot is `none` where the slice
-- holds a nil pointer; what a channel is does not matter here.
pub mod Laws
use xcryptossh.Prelude.{
  ℕ, zero, suc, ◌+◌, ◌-◌, ◌%◌, ◌^◌, List, [], ◌∷◌, ◌++◌, Option, none, some, ltb, if◌then◌else◌,
  length, get_elem?, set,
}

pub record ChanList (A : Type 0) : Type 0 where
  pub chans : List (Option A)
  pub offset : ℕ

module _ {A : Type 0} where
  -- The loop of add over the slots from index `i` on: the slots with the channel in the first free
  -- one, or behind the last, and its index.
  unfoldable pub put_first_free : A → ℕ → List (Option A) → List (Option A) × ℕ
  put_first_free ch i [] = (some ch ∷ [], i)
  put_first_free ch i (none ∷ slots) = (some ch ∷ slots, i)
  put_first_free ch i (some c ∷ slots) =
      let (slots', j) = put_first_free ch (i + 1) slots in (some c ∷ slots', j)

  unfoldable pub add : A → ChanList A → ℕ × ChanList A
  unfolding put_first_free
  add ch c =
      let (slots, i) = put_first_free ch 0 c.chans in
      ((i % 2 ^ 32 + c.offset) % 2 ^ 32, record c { chans = slots })

  -- `id - c.offset` of two uint32
  abbrev pub slot_of : ℕ → ChanList A → ℕ
  slot_of id c = (id + 2 ^ 32 - c.offset) % 2 ^ 32

  abbrev pub flat : Option (Option A) → Option A
  flat none = none
  flat (some o) = o

  unfoldable pub get_chan : ℕ → ChanList A → Option A
  get_chan id c =
      if ltb (slot_of id c) (length c.chans % 2 ^ 32)
      then flat (get_elem? c.chans (slot_of id c))
      else none

  unfoldable pub remove : ℕ → ChanList A → ChanList A
  remove id c =
      if ltb (slot_of id c) (length c.chans % 2 ^ 32)
      then record c { chans = set c.chans (slot_of id c) none }
      else c

  -- The slot of an id after the channel that it points to has changed.
  unfoldable pub put_back : ℕ → A → ChanList A → ChanList A
  put_back id ch c = record c { chans = set c.chans (slot_of id c) (some ch) }

  unfoldable pub present : List (Option A) → List A
  present [] = []
  present (none ∷ slots) = present slots
  present (some ch ∷ slots) = ch ∷ present slots

  unfoldable pub drop_all : ChanList A → List A × ChanList A
  unfolding present
  drop_all c = (present c.chans, record c { chans = [] })
