-- ===== src/Utils.antt =====
-- utils/utils.go: the functions on slices and texts.
pub mod Batches
pub mod Ellipsis
use icinga_go_library.Prelude.{
  ℕ, zero, suc, ◌+◌, ◌-◌, ◌<◌, ◌≤◌, ℤ, pos, negsuc, pos_part, leb_ℤ, ltb_ℤ, Bool, true, false,
  Option, none, some, List, [], ◌∷◌, ◌++◌, Text, codes, has_prefix, take, drop, length, ltb, leb,
  if◌then◌else◌,
}

-- `keys[i:end]`
unfoldable pub slice : {A : Type 0} → ℕ → ℕ → List A → List A
slice i end keys = take (end - i) (drop i keys)

-- `end := i + count; if end > len(keys) { end = len(keys) }`
unfoldable pub batch_end : ℕ → ℕ → ℕ → ℕ
batch_end len count i = if ltb len (i + count) then len else i + count

-- the loop of `BatchSliceOfStrings` from the index `i` on, as far as the fuel goes
unfoldable pub batches_from : {A : Type 0} → List A → ℕ → ℕ → ℕ → List (List A)
unfolding slice batch_end
batches_from keys count zero i = []
batches_from keys count (suc fuel) i =
    let rest = batches_from keys count fuel (i + count) in
    if ltb i (length keys) then slice i (batch_end (length keys) count i) keys ∷ rest else []

-- `none` where the code panics; `sends` is the number of batches that are sent before the context ends
unfoldable pub batch_slice_of_strings : {A : Type 0} → List A → ℤ → ℕ → Option (List (List A))
unfolding batches_from
batch_slice_of_strings keys count sends =
    if leb_ℤ count (pos 0)
    then none
    else some (take sends (batches_from keys (pos_part count) (length keys) 0))

abbrev pub ellipsis : Text
ellipsis = codes "..."

-- `utf8.Slice(0, limit-3) + "..."`: the slice panics for a negative end, and for one behind the text
unfoldable pub shortened : Text → ℤ → Option Text
shortened s (negsuc n) = none
shortened s (pos n) =
    if ltb n 3
    then none
    else if ltb (length s) (n - 3)
    then none
    else some (take (n - 3) s ++ ellipsis)

unfoldable pub ellipsize : Text → ℤ → Option Text
unfolding shortened
ellipsize s limit =
    if leb_ℤ (pos (length s)) limit
    then some s
    else if leb (length s) (length ellipsis)
    then some ellipsis
    else shortened s limit

unfoldable pub is_unix_addr : Text → Bool
unfolding has_prefix
is_unix_addr host = has_prefix host (codes "/")

-- `net.JoinHostPort` brackets a host with a colon.
unfoldable pub has_rune : ℕ → Text → Bool
has_rune r [] = false
has_rune r (c ∷ s) =
    let rest = has_rune r s in if leb r c then (if leb c r then true else rest) else rest

unfoldable pub net_join_host_port : Text → Text → Text
unfolding has_rune
net_join_host_port host port =
    if has_rune 58 host
    then codes "[" ++ (host ++ (codes "]:" ++ port))
    else host ++ (codes ":" ++ port)

-- `port` is the number as `fmt.Sprint` prints it.
unfoldable pub join_host_port : Text → Text → Text
unfolding is_unix_addr net_join_host_port
join_host_port host port = if is_unix_addr host then host else net_join_host_port host port
