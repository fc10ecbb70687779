-- ===== src/Fs/Contents.antt =====
-- What pyuv__process_fs_req of src/fs.c puts into its values: stat_to_pyobj with format_time and the
-- switch stat_float_times, and the loop that lists a directory. The names of the elements are those
-- of stat_result_fields in src/pyuv.h.
use Prim.Native.String.{String}
use text.Mathlib.Text.{◌==◌ as str_eq}
use pyuv.Base.{
  ℕ, zero, suc, ◌+◌, Bool, false, not, ◌&&◌, ◌||◌, is_some, ◌==◌, Option, none, some, List, [], ◌∷◌,
  ◌++◌, if◌then◌else◌,
}
use pyuv.Base.Int.{ℤ, negsuc, is_zero}
use pyuv.Util.Tables.{Text, one}

-- uv_timespec_t
pub record Timespec : Type 0 where
  pub tv_sec : ℤ
  pub tv_nsec : ℤ

-- uv_stat_t
pub record Stat : Type 0 where
  pub st_dev : ℕ
  pub st_mode : ℕ
  pub st_nlink : ℕ
  pub st_uid : ℕ
  pub st_gid : ℕ
  pub st_rdev : ℕ
  pub st_ino : ℕ
  pub st_size : ℕ
  pub st_blksize : ℕ
  pub st_blocks : ℕ
  pub st_flags : ℕ
  pub st_gen : ℕ
  pub st_atim : Timespec
  pub st_mtim : Timespec
  pub st_ctim : Timespec
  pub st_birthtim : Timespec

-- uv_dirent_t
pub record DirEnt : Type 0 where
  pub name : Text
  pub type_of : ℤ

-- The interpreter's conversions, which return NULL where they fail; `of_time` is
-- PyFloat_FromDouble(tv_sec + 1e-9 * tv_nsec).
pub record Values (Val : Type 0) : Type 0 where
  pub of_text : Text → Option Val
  pub of_long : ℤ → Option Val
  pub of_ulonglong : ℕ → Option Val
  pub of_time : Timespec → Option Val

-- stat_float_times, of the static and the argument, which is -1 where none is given: the static
-- afterwards, and what is returned, none for None.
unfoldable pub stat_float_times : (float_times newval : ℤ) → ℤ × Option Bool
stat_float_times float_times (negsuc zero) = (float_times, some (not (is_zero float_times)))
stat_float_times float_times newval = (newval, none)

-- stat_result_fields
abbrev pub stat_result_fields : List String
stat_result_fields =
    "st_mode" ∷ "st_ino" ∷ "st_dev" ∷ "st_nlink" ∷ "st_uid" ∷ "st_gid" ∷ "st_size" ∷ "st_atime"
    ∷ "st_mtime" ∷ "st_ctime" ∷ "st_blksize" ∷ "st_blocks" ∷ "st_rdev" ∷ "st_flags" ∷ "st_gen"
    ∷ "st_birthtime" ∷ []

-- A DirEnt of the list, its elements NULL where they cannot be made.
pub record DirItem (Val : Type 0) : Type 0 where
  pub name : Option Val
  pub type_of : Option Val

-- The list, the live objects, and whether an exception is left.
pub record DirList (Val : Type 0) : Type 0 where
  pub items : List (DirItem Val)
  pub live : ℕ
  pub err : Bool

-- What there is memory for in a round: the item, and its place in the list.
pub record DirRoom : Type 0 where
  pub item_made : Bool
  pub appended : Bool

-- A structure sequence by its indices: a new one holds NULL everywhere.
abbrev pub Items : Type 0 → Type 0
Items Val = ℕ → Option Val

module _ {Val : Type 0} where
  -- PyStructSequence_SET_ITEM
  abbrev pub set_item : ℕ → Option Val → Items Val → Items Val
  set_item k v r j = if k == j then v else r j

  -- The attribute with a name, for the names from index `k` on.
  abbrev pub attribute_from : ℕ → List String → Items Val → String → Option Val
  attribute_from k [] r name = none
  attribute_from k (f ∷ fs) r name = if str_eq f name then r k else attribute_from (suc k) fs r name

  abbrev pub stat_attribute : Items Val → String → Option Val
  stat_attribute r name = attribute_from 0 stat_result_fields r name

  -- The objects of an item, and those of a list of items.
  abbrev pub item_objects : DirItem Val → ℕ
  item_objects i = suc (one i.name + one i.type_of)

  abbrev pub objects : List (DirItem Val) → ℕ
  objects [] = 0
  objects (i ∷ is) = item_objects i + objects is

  -- A conversion that failed has left its exception.
  abbrev pub is_whole : DirItem Val → Bool
  is_whole i = is_some i.name && is_some i.type_of

  -- PyStructSequence_New, both SET_ITEM, PyList_Append and Py_DECREF(item): where the list cannot
  -- grow, the item and its elements go with the last reference.
  abbrev pub append_item : Bool → DirItem Val → DirList Val → DirList Val
  append_item appended i s = record {
    items = if appended then s.items ++ i ∷ [] else s.items;
    live = s.live + (if appended then item_objects i else 0);
    err = s.err || not (is_whole i && appended);
  }

  module _ (v : Values Val) where
    unfoldable pub format_time : (float_times : ℤ) → Timespec → Option Val
    format_time float_times t = if is_zero float_times then v.of_long t.tv_sec else v.of_time t

    unfoldable pub stat_to_pyobj : (float_times : ℤ) → Stat → Items Val → Items Val
    stat_to_pyobj float_times st r0 =
        let r1 = set_item 0 (v.of_ulonglong st.st_mode) r0 in
        let r2 = set_item 1 (v.of_ulonglong st.st_ino) r1 in
        let r3 = set_item 2 (v.of_ulonglong st.st_dev) r2 in
        let r4 = set_item 3 (v.of_ulonglong st.st_nlink) r3 in
        let r5 = set_item 4 (v.of_ulonglong st.st_uid) r4 in
        let r6 = set_item 5 (v.of_ulonglong st.st_gid) r5 in
        let r7 = set_item 6 (v.of_ulonglong st.st_size) r6 in
        let r8 = set_item 7 (format_time float_times st.st_atim) r7 in
        let r9 = set_item 8 (format_time float_times st.st_mtim) r8 in
        let r10 = set_item 9 (format_time float_times st.st_ctim) r9 in
        let r11 = set_item 10 (v.of_ulonglong st.st_blksize) r10 in
        let r12 = set_item 11 (v.of_ulonglong st.st_blocks) r11 in
        let r13 = set_item 12 (v.of_ulonglong st.st_rdev) r12 in
        let r14 = set_item 13 (v.of_ulonglong st.st_flags) r13 in
        let r15 = set_item 14 (v.of_ulonglong st.st_gen) r14 in
        set_item 15 (format_time float_times st.st_birthtim) r15

    abbrev pub dir_item : DirEnt → DirItem Val
    dir_item e = record { name = v.of_text e.name; type_of = v.of_long e.type_of }

    -- The loop over uv_fs_scandir_next, from its round `i` on, for the entries before UV_EOF.
    unfoldable pub scandir_loop : (room : ℕ → DirRoom) → ℕ → List DirEnt → DirList Val → DirList Val
    scandir_loop room i [] s = s
    scandir_loop room i (e ∷ es) s =
        let rest = scandir_loop room (suc i) es (append_item (room i).appended (dir_item e) s) in
        if (room i).item_made then rest else record s { err = false }

    -- The case UV_FS_SCANDIR: none for None, where there is no memory for the list.
    unfoldable pub scandir_value :
        (list_made : Bool) → (room : ℕ → DirRoom) → List DirEnt → (live : ℕ) → Option (DirList Val)
    unfolding scandir_loop
    scandir_value list_made room es live =
        if list_made
        then some (scandir_loop room 0 es (record { items = []; live = live + 1; err = false }))
        else none
