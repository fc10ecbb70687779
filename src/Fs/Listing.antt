-- ===== src/Fs/Listing.antt =====
-- What the values of stat and scandir (src/fs.c) hold.
use Prim.Native.String.{String}
use pyuv.Base.{
  ℕ, zero, suc, ◌+◌, ◌≡◌, ◌≢◌, ◌∙◌, refl, sym, arith, Bool, true, false, not, ◌&&◌, ◌||◌, Option,
  none, some, List, [], ◌∷◌, ◌++◌, map, Bool-cases, inl, inr,
}
use pyuv.Base.Int.{ℤ, pos, negsuc, is_zero}
use mathlib.Core.List.{append_assoc, append-nil, Sublist, nil-sublist}
use mathlib.Core.List.Sublist
use pyuv.Fs.Contents.{
  Timespec, Stat, DirEnt, Values, stat_float_times, DirItem, DirList, DirRoom, Items,
  stat_attribute, objects, is_whole, append_item, format_time, stat_to_pyobj, dir_item,
  scandir_loop, scandir_value,
}

stat_float_times_other :
    (float_times newval : ℤ)
    → newval ≢ negsuc 0
    → stat_float_times float_times newval ≡ (newval, none)
unfolding stat_float_times
stat_float_times_other float_times (pos n) h = refl
stat_float_times_other float_times (negsuc zero) h = absurd (h refl)
stat_float_times_other float_times (negsuc (suc n)) h = refl

module _ {Val : Type 0} (v : Values Val) where
  -- The times of a stat result under a conversion.
  abbrev pub TimesBy : (Timespec → Option Val) → Stat → Items Val → Type 0
  TimesBy f st r =
      (stat_attribute r "st_atime" ≡ f st.st_atim)
      × (stat_attribute r "st_mtime" ≡ f st.st_mtim)
      × (stat_attribute r "st_ctime" ≡ f st.st_ctim)
      × (stat_attribute r "st_birthtime" ≡ f st.st_birthtim)

  -- There is memory in every round.
  abbrev pub Ample : (ℕ → DirRoom) → Type 0
  Ample room = (i : ℕ) → ((room i).item_made ≡ true) × ((room i).appended ≡ true)

  -- Every item of the list has both of its elements.
  abbrev pub all_whole : List (DirItem Val) → Bool
  all_whole [] = true
  all_whole (i ∷ is) = is_whole i && all_whole is

  objects-append : (is js : List (DirItem Val)) → objects (is ++ js) ≡ objects is + objects js
  objects-append [] js = omega arith
  objects-append (i ∷ is) js = omega (arith, objects-append is js)

  append_item_live :
      (done : Bool) (i : DirItem Val) (s : DirList Val) (base : ℕ)
      → s.live ≡ base + objects s.items
      → (append_item done i s).live ≡ base + objects (append_item done i s).items
  append_item_live true i s base h = omega (arith, h, objects-append s.items (i ∷ []))
  append_item_live false i s base h = omega (arith, h)

  scandir_loop_live :
      (room : ℕ → DirRoom) (i : ℕ) (es : List DirEnt) (s : DirList Val) (base : ℕ)
      → s.live ≡ base + objects s.items
      → let t = scandir_loop v room i es s in t.live ≡ base + objects t.items
  unfolding scandir_loop
  scandir_loop_live room i [] s base h = h
  scandir_loop_live room i (e ∷ es) s base h =
      let t = append_item (room i).appended (dir_item v e) s in
      elim (Bool-cases (room i).item_made) [
        | inl m ↦ rw m (
            scandir_loop_live room (suc i) es t base
              (append_item_live (room i).appended (dir_item v e) s base h))
        | inr m ↦ rw m h
      ]

  scandir_loop_prefix :
      (room : ℕ → DirRoom) (i : ℕ) (es : List DirEnt) (s : DirList Val)
      → (got : List (DirItem Val)) × ((scandir_loop v room i es s).items ≡ s.items ++ got)
        × Sublist got (map (dir_item v) es)
  unfolding scandir_loop
  scandir_loop_prefix room i [] s = ([], sym (append-nil s.items), Sublist.refl [])
  scandir_loop_prefix room i (e ∷ es) s =
      let d = dir_item v e in
      elim (Bool-cases (room i).item_made) [
        | inl m ↦ elim (Bool-cases (room i).appended) [
          | inl a ↦
              let ih = scandir_loop_prefix room (suc i) es (append_item true d s) in
              rw (m, a)
                (d ∷ ih.0, ih.1 ∙ append_assoc s.items (d ∷ []) ih.0, Sublist.cons-cons d ih.2)
          | inr a ↦
              let ih = scandir_loop_prefix room (suc i) es (append_item false d s) in
              rw (m, a) (ih.0, ih.1, Sublist.cons d ih.2)
        ]
        | inr m ↦ rw m ([], sym (append-nil s.items), nil-sublist (map (dir_item v) (e ∷ es)))
      ]

  scandir_loop_all :
      (room : ℕ → DirRoom) (i : ℕ) (es : List DirEnt) (s : DirList Val)
      → Ample room
      → let t = scandir_loop v room i es s in
        (t.items ≡ s.items ++ map (dir_item v) es)
        × (t.err ≡ s.err || not (all_whole (map (dir_item v) es)))
  unfolding scandir_loop
  scandir_loop_all room i [] s ample = (sym (append-nil s.items), ground arith)
  scandir_loop_all room i (e ∷ es) s ample =
      let d = dir_item v e in
      let ih = scandir_loop_all room (suc i) es (append_item true d s) ample in
      rw ((ample i).0, (ample i).1)
        (ih.0 ∙ append_assoc s.items (d ∷ []) (map (dir_item v) es), ih.1 ∙ ground arith)

  -- The value of a request for a directory's entries: None exactly where there is no memory for the
  -- list; otherwise a list of entries in libuv's order, and no object but the list and those in it
  -- is left, whichever allocation fails; where there is memory in every round, it has all entries,
  -- and an exception is left pending beside it exactly where a name or a type could not be made.
  pub scandir_value_lists :
      (list_made : Bool) (room : ℕ → DirRoom) (es : List DirEnt) (live : ℕ)
      → let r = scandir_value v list_made room es live in
        let all = map (dir_item v) es in
        (list_made ≡ false → r ≡ none)
        × (list_made ≡ true
            → (s : DirList Val) × (r ≡ some s)
              × (s.live ≡ live + 1 + objects s.items)
              × Sublist s.items all
              × (Ample room → (s.items ≡ all) × (s.err ≡ not (all_whole all))))
  unfolding scandir_value
  scandir_value_lists list_made room es live = (
    λ l. rw l refl,
    λ l.
        let start : DirList Val = record { items = []; live = live + 1; err = false } in
        let p = scandir_loop_prefix room 0 es start in
        (
          scandir_loop v room 0 es start,
          rw l refl,
          scandir_loop_live room 0 es start (live + 1) (omega arith),
          rw p.1 p.2,
          λ ample. scandir_loop_all room 0 es start ample,
        ),
  )

  -- The attributes of a stat result, whatever its memory held, after any call of stat_float_times:
  -- each is made of libuv's field of that name; the four times are whole seconds where the static is
  -- 0 and floating point numbers where it is not; a call without an argument, or with -1, leaves the
  -- static as it is and tells it, and one with another number sets it.
  pub stat_result_attributes :
      (float_times newval : ℤ) (st : Stat) (r0 : Items Val)
      → let set = stat_float_times float_times newval in
        let r = stat_to_pyobj v set.0 st r0 in
        let has = λ (name : String) (n : ℕ). stat_attribute r name ≡ v.of_ulonglong n in
        (has "st_mode" st.st_mode
          × has "st_ino" st.st_ino
          × has "st_dev" st.st_dev
          × has "st_nlink" st.st_nlink
          × has "st_uid" st.st_uid
          × has "st_gid" st.st_gid
          × has "st_size" st.st_size
          × has "st_blksize" st.st_blksize
          × has "st_blocks" st.st_blocks
          × has "st_rdev" st.st_rdev
          × has "st_flags" st.st_flags
          × has "st_gen" st.st_gen)
        × (is_zero set.0 ≡ true → TimesBy (λ t. v.of_long t.tv_sec) st r)
        × (is_zero set.0 ≡ false → TimesBy v.of_time st r)
        × (newval ≡ negsuc 0 → set ≡ (float_times, some (not (is_zero float_times))))
        × (newval ≢ negsuc 0 → set ≡ (newval, none))
  unfolding stat_to_pyobj format_time stat_float_times
  stat_result_attributes float_times newval st r0 =
      let set = stat_float_times float_times newval in
      (
        (refl, refl, refl, refl, refl, refl, refl, refl, refl, refl, refl, refl),
        λ z. rw z (refl, refl, refl, refl),
        λ z. rw z (refl, refl, refl, refl),
        λ e. rw e refl,
        λ n. stat_float_times_other float_times newval n,
      )
