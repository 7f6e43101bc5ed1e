-- ===== src/ChanList/Laws.antt =====
-- A channel list maps ids to channels: add takes an id that no channel has, and remove frees it.
use xcryptossh.Prelude.{
  ℕ, zero, suc, ◌+◌, ◌%◌, ◌^◌, ◌≤◌, ◌<◌, ◌≡◌, ◌≢◌, refl, List, [], ◌∷◌, Option, none, some, ◌==◌,
  if◌then◌else◌, length, get_elem?, set, arith, get_elem?-set_self, get_elem?-set_ne, length-set,
  get_elem?-none,
}
use xcryptossh.ChanList.{
  ChanList, put_first_free, add, slot_of, flat, get_chan, remove, put_back, drop_all,
}

-- Fewer than 2^32 slots, and an offset that fits a uint32.
pub record IsSmall {A : Type 0} (c : ChanList A) : Type 0 where
  pub slots : length c.chans < 2 ^ 32
  pub offset_fits : c.offset < 2 ^ 32

module _ {A : Type 0} where
  -- The first free slot.
  free_index : List (Option A) → ℕ
  free_index [] = 0
  free_index (none ∷ slots) = 0
  free_index (some c ∷ slots) = suc (free_index slots)

  put_first_free_index :
      (ch : A) (i : ℕ) (slots : List (Option A))
      → (put_first_free ch i slots).1 ≡ i + free_index slots
  unfolding put_first_free free_index
  put_first_free_index ch i [] = omega arith
  put_first_free_index ch i (none ∷ slots) = omega arith
  put_first_free_index ch i (some c ∷ slots) = omega (arith, put_first_free_index ch (i + 1) slots)

  free_index-le : (slots : List (Option A)) → free_index slots ≤ length slots
  unfolding free_index
  free_index-le [] = omega arith
  free_index-le (none ∷ slots) = omega arith
  free_index-le (some c ∷ slots) = omega (arith, free_index-le slots)

  free_index_free : (slots : List (Option A)) → flat (get_elem? slots (free_index slots)) ≡ none
  unfolding free_index
  free_index_free [] = refl
  free_index_free (none ∷ slots) = refl
  free_index_free (some c ∷ slots) = free_index_free slots

  put_first_free_slots :
      (ch : A) (i j : ℕ) (slots : List (Option A))
      → flat (get_elem? (put_first_free ch i slots).0 j)
        ≡ (if j == free_index slots then some ch else flat (get_elem? slots j))
  unfolding put_first_free free_index
  put_first_free_slots ch i zero [] = refl
  put_first_free_slots ch i (suc j) [] = ground arith
  put_first_free_slots ch i zero (none ∷ slots) = refl
  put_first_free_slots ch i (suc j) (none ∷ slots) = ground arith
  put_first_free_slots ch i zero (some c ∷ slots) = ground arith
  put_first_free_slots ch i (suc j) (some c ∷ slots) =
      ground (arith, put_first_free_slots ch (i + 1) j slots)

  length-put_first_free :
      (ch : A) (i : ℕ) (slots : List (Option A))
      → length (put_first_free ch i slots).0
        ≡ (if free_index slots == length slots then length slots + 1 else length slots)
  unfolding put_first_free free_index
  length-put_first_free ch i [] = refl
  length-put_first_free ch i (none ∷ slots) = ground arith
  length-put_first_free ch i (some c ∷ slots) =
      ground (arith, length-put_first_free ch (i + 1) slots)

  -- getChan is a look at a slot: one past the end reads as nil.
  get_chan_lem :
      (id : ℕ) (c : ChanList A)
      → IsSmall c
      → get_chan id c ≡ flat (get_elem? c.chans (slot_of id c))
  unfolding get_chan
  get_chan_lem id c s = ground (arith, s.slots, get_elem?-none c.chans (slot_of id c))

  slot_of-id :
      (i : ℕ) (c : ChanList A)
      → i < 2 ^ 32
      → c.offset < 2 ^ 32
      → slot_of ((i % 2 ^ 32 + c.offset) % 2 ^ 32) c ≡ i
  slot_of-id i c h o = omega arith

  -- On a list with room for one more slot of a uint32 index, add returns an id that no channel
  -- had; from then on getChan finds the new channel under it, and under every other id what it
  -- found before.
  pub get_chan-add :
      (ch : A) (c : ChanList A) (id : ℕ)
      → IsSmall c
      → length c.chans + 1 < 2 ^ 32
      → id < 2 ^ 32
      → (get_chan (add ch c).0 c ≡ none)
        × (get_chan id (add ch c).1 ≡ (if id == (add ch c).0 then some ch else get_chan id c))
        × ((add ch c).0 < 2 ^ 32)
        × IsSmall (add ch c).1
  unfolding add
  get_chan-add ch c id s room fits =
      let k : ℕ = free_index c.chans in
      let (slots, i) = put_first_free ch 0 c.chans in
      let index : i ≡ k = omega (arith, put_first_free_index ch 0 c.chans) in
      let small : k < 2 ^ 32 = omega (arith, free_index-le c.chans) in
      let long : length slots < 2 ^ 32 = ground (arith, length-put_first_free ch 0 c.chans) in
      let s' : IsSmall (record c { chans = slots }) = record {
        slots = long;
        offset_fits = s.offset_fits;
      } in
      (
        ground (
          arith,
          get_chan_lem ((i % 2 ^ 32 + c.offset) % 2 ^ 32) c s,
          slot_of-id k c small s.offset_fits,
          free_index_free c.chans,
        ),
        ground (
          arith,
          get_chan_lem id c s,
          get_chan_lem id (record c { chans = slots }) s',
          put_first_free_slots ch 0 (slot_of id c) c.chans,
          slot_of-id k c small s.offset_fits,
        ),
        omega arith,
        s',
      )

  -- On a list whose slots have uint32 indices, remove frees one id and keeps the channels of all
  -- others.
  pub get_chan-remove :
      (gone id : ℕ) (c : ChanList A)
      → IsSmall c
      → gone < 2 ^ 32
      → id < 2 ^ 32
      → (get_chan id (remove gone c) ≡ (if id == gone then none else get_chan id c))
        × IsSmall (remove gone c)
  unfolding remove
  get_chan-remove gone id c s g h = ground (
    arith,
    s.slots,
    get_chan_lem id c s,
    length-set c.chans (slot_of gone c) none,
    get_elem?-set_self c.chans (slot_of gone c) none,
    get_elem?-set_ne c.chans (slot_of gone c) (slot_of id c) none,
    get_chan_lem id (record c { chans = set c.chans (slot_of gone c) none }),
    get_elem?-none c.chans (slot_of gone c),
  )

  -- On a list whose slots have uint32 indices, a change of the channel with one id shows under
  -- that id alone.
  pub get_chan-put_back :
      (here id : ℕ) (ch : A) (c : ChanList A)
      → IsSmall c
      → here < 2 ^ 32
      → id < 2 ^ 32
      → get_chan here c ≢ none
      → (get_chan id (put_back here ch c) ≡ (if id == here then some ch else get_chan id c))
        × IsSmall (put_back here ch c)
  unfolding put_back
  get_chan-put_back here id ch c s g h p = ground (
    arith,
    s.slots,
    get_chan_lem here c s,
    get_chan_lem id c s,
    length-set c.chans (slot_of here c) (some ch),
    get_elem?-set_self c.chans (slot_of here c) (some ch),
    get_elem?-set_ne c.chans (slot_of here c) (slot_of id c) (some ch),
    get_chan_lem id (record c { chans = set c.chans (slot_of here c) (some ch) }),
    get_elem?-none c.chans (slot_of here c),
  )

  -- dropAll leaves no id with a channel.
  pub get_chan-drop_all : (id : ℕ) (c : ChanList A) → get_chan id (drop_all c).1 ≡ none
  unfolding drop_all get_chan
  get_chan-drop_all id c = ground arith
