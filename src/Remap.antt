-- ===== src/Remap.antt =====
-- internal/kernel/syscall.go: `mmap2` and `mremap` over the memory and its address space. What `ret`
-- puts into EAX is a `Reply`; a nil space has no counterpart.
pub mod Covered
pub mod Shrink
mod Tests
use Prim.Native.String.{compare}
use Prim.Native.Nat.{lt, eq, gt}
use ish_port_go.Prelude.{
  ℕ, zero, suc, ◌+◌, ◌-◌, ◌*◌, ◌^◌, String, Bool, true, false, ◌&&◌, ◌||◌, not, Option, none, some,
  List, [], ◌∷◌, ltb, leb, ◌==◌, if◌then◌else◌, length, replicate, Result, ok, err, add32, and_not,
  bit_and, nonzero, has,
}
use ish_port_go.AddressSpace.{
  Mapping, AddressSpace, add, remove, is_free, mapping_at, map_anonymous,
}
use ish_port_go.Memory.{Memory, read_bytes, write_bytes}
use ish_port_go.Mmap.{page_length, prot}

pub data Errno : Type 0 where
  e_inval e_nomem e_fault e_badf : Errno

pub data Reply : Type 0 where
  mapped : ℕ → Reply
  failed : Errno → Reply

-- The fields of `Kernel` that the calls use.
pub record MapState : Type 0 where
  pub mem : Memory
  pub next_map : ℕ

abbrev pub with_space : Memory → AddressSpace → Memory
with_space m a = record m { space = a }

abbrev pub fail_with : Errno → MapState → Memory → Reply × MapState
fail_with e k m = (failed e, record k { mem = m })

-- `_ = k.Space.Remove(addr, size)`
unfoldable pub try_remove : Memory → ℕ → ℕ → Memory
try_remove m addr size = elim (remove m.space addr size) [ ok a ↦ with_space m a | err e ↦ m ]

unfoldable pub page_align_up : ℕ → ℕ
page_align_up v = if ltb (0xffff_ffff - 4095) v then 0xffff_ffff else and_not (v + 4095) 4095

unfoldable pub same_name : String → String → Bool
same_name a b = elim (compare a b) [ lt ↦ false | eq ↦ true | gt ↦ false ]

-- The loop over the mappings that the old range covers; each round moves `covered` up.
unfoldable pub is_covered : AddressSpace → Mapping → ℕ → ℕ → ℕ → Bool
is_covered a first old_end zero covered = leb old_end covered
is_covered a first old_end (suc fuel) covered =
    if leb old_end covered then true else elim (mapping_at a covered) [
      | none ↦ false
      | some next ↦
          next.start == covered
          && next.prot == first.prot
          && same_name next.name first.name
          && is_covered a first old_end fuel next.end
    ]

-- Whether the mapping was extended where it stands, and the memory after the attempt.
unfoldable pub grow : Memory → Mapping → ℕ → ℕ → ℕ → Bool × Memory
grow m mapping old_addr old_size new_size =
    let old_end = add32 old_addr old_size in
    let new_end = add32 old_addr new_size in
    let more = new_size - old_size in
    if leb old_end new_end && leb new_end m.space.max && is_free m.space old_end new_end
    then (elim (add m.space old_end more mapping.prot mapping.name) [
      | err e ↦ (false, m)
      | ok a ↦ elim (write_bytes (with_space m a) old_end (replicate more 0)) [
        | ok n ↦ (true, n)
        | err e ↦ (false, try_remove (with_space m a) old_end more)
      ]
    ])
    else (false, m)

-- The old bytes in their new place, and the old range given up.
unfoldable pub settle : MapState → Memory → List ℕ → ℕ → ℕ → ℕ → ℕ → Reply × MapState
settle k m old_data moved old_addr old_size new_size = elim (write_bytes m moved old_data) [
  | err e ↦ fail_with e_fault k (try_remove m moved new_size)
  | ok n ↦ elim (remove n.space old_addr old_size) [
    | err e ↦ fail_with e_fault k (try_remove n moved new_size)
    | ok b ↦ (mapped moved, record { mem = with_space n b; next_map = add32 moved new_size })
  ]
]

-- A new range for the bytes, cleared first. What `FindHole` wrote stays on an error.
unfoldable pub move_to : MapState → Mapping → List ℕ → ℕ → ℕ → ℕ → ℕ → Reply × MapState
move_to k mapping old_data target old_addr old_size new_size =
    let (result, a) = map_anonymous k.mem.space target new_size mapping.prot mapping.name in
    let m = with_space k.mem a in
    elim result [
      | err e ↦ fail_with e_nomem k m
      | ok moved ↦ elim (write_bytes m moved (replicate new_size 0)) [
        | err e ↦ fail_with e_fault k (try_remove m moved new_size)
        | ok cleared ↦ settle k cleared old_data moved old_addr old_size new_size
      ]
    ]

unfoldable pub move : MapState → Mapping → ℕ → ℕ → ℕ → ℕ → ℕ → Reply × MapState
move k mapping old_addr old_size new_size flags new_addr =
    let a = k.mem.space in
    let fixed = has flags 2 in
    let target = if fixed then new_addr else 0 in
    if not (has flags 1) then (failed e_nomem, k) else elim (read_bytes k.mem old_addr old_size) [
      | err e ↦ (failed e_fault, k)
      | ok old_data ↦
          if fixed
            && (nonzero (bit_and target 0xfff)
                || ltb a.max target
                || ltb (a.max - target) new_size
                || not (is_free a target (add32 target new_size)))
          then (failed e_inval, k)
          else move_to k mapping old_data target old_addr old_size new_size
    ]

-- What follows the test that one kind of mapping covers the old range.
unfoldable pub resize : MapState → Mapping → ℕ → ℕ → ℕ → ℕ → ℕ → Reply × MapState
resize k mapping old_addr old_size new_size flags new_addr =
    if old_size == new_size
    then (mapped old_addr, k)
    else if ltb new_size old_size
    then (elim (remove k.mem.space (add32 old_addr new_size) (old_size - new_size)) [
      | err e ↦ (failed e_inval, k)
      | ok b ↦ (mapped old_addr, record k { mem = with_space k.mem b })
    ])
    else let (grown, m) = grow k.mem mapping old_addr old_size new_size in
      if grown
      then (mapped old_addr, record k { mem = m })
      else move (record k { mem = m }) mapping old_addr old_size new_size flags new_addr

unfoldable pub remap_sized : MapState → ℕ → ℕ → ℕ → ℕ → ℕ → Reply × MapState
remap_sized k old_addr old_size new_size flags new_addr =
    let a = k.mem.space in
    if nonzero (bit_and old_addr 0xfff) || ltb a.max old_addr || ltb (a.max - old_addr) old_size
    then (failed e_inval, k)
    else elim (mapping_at a old_addr) [
      | none ↦ (failed e_inval, k)
      | some mapping ↦
          if is_covered a mapping (add32 old_addr old_size) old_size mapping.end
          then resize k mapping old_addr old_size new_size flags new_addr
          else (failed e_inval, k)
    ]

unfoldable pub mremap : MapState → ℕ → ℕ → ℕ → ℕ → ℕ → Reply × MapState
mremap k old_addr old_length new_length flags new_addr = elim (page_length old_length) [
  | none ↦ (failed e_inval, k)
  | some old_size ↦ elim (page_length new_length) [
    | none ↦ (failed e_inval, k)
    | some new_size ↦ remap_sized k old_addr old_size new_size flags new_addr
  ]
]

-- The state that `restore` brings back, on a fixed mapping: the old mappings and the old bytes.
unfoldable pub restore : Bool → List Mapping → ℕ → List ℕ → Memory → Memory
restore fixed old_mappings addr old_data m =
    let back = with_space m (record m.space { mappings = old_mappings }) in
    if fixed then (elim (write_bytes back addr old_data) [ ok n ↦ n | err e ↦ back ]) else m

-- From the call of `MapAnonymous` on; `old` is the memory at the start of the call.
unfoldable pub map_filled :
    MapState → Memory → Bool → ℕ → ℕ → ℕ → List ℕ → List ℕ → Reply × MapState
map_filled k m fixed addr size rights file_data old_data =
    let old_mappings = k.mem.space.mappings in
    let (result, a) = map_anonymous m.space addr size rights "mmap2" in
    let n = with_space m a in
    elim result [
      | err e ↦ fail_with e_nomem k (restore fixed old_mappings addr old_data n)
      | ok at ↦ elim (write_bytes n at file_data) [
        | err e ↦
            fail_with e_fault k (restore fixed old_mappings addr old_data (try_remove n at size))
        | ok done ↦ (mapped at, record { mem = done; next_map = add32 at size })
      ]
    ]

unfoldable pub map_fixed : MapState → ℕ → ℕ → ℕ → List ℕ → Reply × MapState
map_fixed k addr size rights file_data =
    let a = k.mem.space in
    if ltb a.max addr || ltb (a.max - addr) size || nonzero (bit_and addr 0xfff)
    then (failed e_nomem, k)
    else elim (read_bytes k.mem addr size) [
      | err e ↦ (failed e_fault, k)
      | ok old_data ↦ elim (remove a addr size) [
        | err e ↦ fail_with e_fault k (restore true a.mappings addr old_data k.mem)
        | ok b ↦ map_filled k (with_space k.mem b) true addr size rights file_data old_data
      ]
    ]

-- The hint of a mapping that is not fixed counts only if the range there is free.
unfoldable pub map_anywhere : MapState → ℕ → ℕ → ℕ → List ℕ → Reply × MapState
map_anywhere k addr size rights file_data =
    let a = k.mem.space in
    let bad =
      ltb addr 0x1000
      || ltb a.max addr
      || ltb (a.max - addr) size
      || nonzero (bit_and addr 0xfff)
      || not (is_free a addr (add32 addr size)) in
    map_filled k k.mem false (if bad then 0 else addr) size rights file_data []

-- `file` is what the descriptor names, if it is a file of the host: the bytes that `ReadAt` leaves in
-- a buffer of a size, from an offset on, or its error.
unfoldable pub mmap2 :
    Option (ℕ → ℕ → Result (List ℕ)) → MapState → ℕ → ℕ → ℕ → ℕ → ℕ → Reply × MapState
mmap2 file k addr length linux_prot flags page_offset =
    let size = page_align_up length in
    let fill = λ (file_data : List ℕ).
      if has flags 0x10
      then map_fixed k addr size (prot linux_prot) file_data
      else map_anywhere k addr size (prot linux_prot) file_data in
    if length == 0 || ltb (64 * 2 ^ 20) length
    then (failed e_inval, k)
    else if size == 0
    then (failed e_inval, k)
    else if has flags 0x20
    then fill (replicate size 0)
    else elim file [
      | none ↦ (failed e_badf, k)
      | some read_at ↦ elim (read_at size (page_offset * 4096)) [
        | err e ↦ (failed e_fault, k)
        | ok file_data ↦ fill file_data
      ]
    ]
