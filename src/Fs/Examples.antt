-- ===== src/Fs/Examples.antt =====
-- A request at address 20 on the loop at address 5, for stat() of a file, with None or the function
-- at address 9 as its callback. What processing makes stands at 30 (the path), 31 (a number) and 32
-- (the value).
use pyuv.Base.{
  ℕ, ◌≡◌, ◌≢◌, refl, Bool, true, false, ◌&&◌, Option, none, some, [], ◌∷◌, arith, ltb, ◌==◌,
  if◌then◌else◌,
}
use pyuv.Base.Int.{ℤ, pos, negsuc}
use pyuv.Py.{Obj, Refs, is_self, is_other, incref}
use pyuv.Fs.{
  FsType, fs_stat, fs_read, fs_write, FsRequest, Outcome, yields, unlisted, process_fs_req,
  run_callback,
}
use pyuv.Fs.Contents.{DirEnt, Timespec, Values, scandir_value, stat_float_times}
use pyuv.Util.Tables.{Text}
use pyuv.Fs.Calls.{Env}
use pyuv.Fs.Ownership.{FsInv, Fresh}
use pyuv.Fs.Cycle.{Listed, Keeps, failed_io_leaks}
use pyuv.Fs.Balance.{Balanced}
use pyuv.Fs.Results.{Apart}
use pyuv.Fs.Calls.{fs_read_call, fs_write_call}
use pyuv.Fs.DataCalls.{data_calls-Balanced}
use pyuv.Fs.Functions.{of_type, func_stat, typed_call-Balanced}

abbrev start_refs : Refs
start_refs o = if ltb o 10 then 1 else 0

abbrev answer : FsType → ℤ → Outcome
answer t result = record {
  fs_type = t;
  uv_result = result;
  path_made = some (some 30);
  number = 31;
  made = some 32;
}

-- A function that raises, and a hook that ignores that.
abbrev fails : Option Obj → FsRequest → Option Obj × FsRequest
fails cb s = (none, s)

abbrev hook : FsRequest → FsRequest
hook s = s

stat-Listed : (result : ℤ) → Listed (answer fs_stat result)
unfolding yields
stat-Listed result e = ground (arith, e)

read-Listed : (result : ℤ) → Listed (answer fs_read result)
unfolding yields
read-Listed result e = ground (arith, e)

apart : (t : FsType) (result : ℤ) → Apart (answer t result) 20
apart t result = record {
  path_apart = is_other 30 20 refl;
  number_apart = is_other 31 20 refl;
  made_apart = is_other 32 20 refl;
  none_apart = is_other 0 20 refl;
}

abbrev env : Env
env = record {
  callable = λ o. true;
  alloc = some 20;
  sliced = true;
  err = pos 0;
  answer = answer fs_stat (pos 0);
}

known : yields fs_stat ≢ unlisted
unfolding yields
known e = ground (arith, e)

-- A synchronous stat() that works.
typed_call-Balanced_example :
    Balanced 20 start_refs 4 (func_stat fails hook env (some (5, 0)) start_refs 4)
typed_call-Balanced_example =
    typed_call-Balanced fails hook env fs_stat 20 5 0 start_refs 4 known refl refl (omega arith)
      (omega arith) (apart fs_stat (pos 0))

-- A synchronous read() of no bytes, and a write() of the bytes at address 8.
data_calls-Balanced_example :
    Balanced 20 start_refs 4
      (fs_read_call fails hook (of_type fs_read env) true (some (5, 0)) start_refs 4)
    × Balanced 20 start_refs 4
        (fs_write_call fails hook (of_type fs_write env) (some (5, 0)) 8 start_refs 4)
data_calls-Balanced_example =
    data_calls-Balanced fails hook env true 20 5 0 8 start_refs 4 refl refl (omega arith)
      (omega arith) (omega arith) (apart fs_stat (pos 0))

-- The request of a read() that libuv has, with its block.
abbrev reading : FsRequest
reading = record {
  request = record {
    req_ptr = true;
    initialized = true;
    loop = some 5;
    dict = none;
    refs = incref 20 (incref 20 (incref 5 (incref 9 start_refs)));
    freed = false;
  };
  callback = some 9;
  path = none;
  result = none;
  error = none;
  view = none;
  buf = true;
  blocks = 5;
}

reading-FsInv : FsInv 20 (incref 20 (incref 20 start_refs)) 4 reading
reading-FsInv = record {
  counted = λ o. ground arith;
  blocked = refl;
  alive = ground (arith, is_self 20);
  dead = ground arith;
}

reading-Fresh : Fresh reading
reading-Fresh = record { no_path = refl; no_result = refl; no_error = refl }

callback_idle : (t : FsRequest) → run_callback fails hook t ≡ t
callback_idle t = ground arith

calm :
    (t : FsRequest)
    → ((run_callback fails hook t).view ≡ t.view) × ((run_callback fails hook t).buf ≡ t.buf)
calm t = rw (callback_idle t) (refl, refl)

keeps : Keeps 20 (incref 20 (incref 20 start_refs)) 4 (run_callback fails hook)
keeps t live v = rw (callback_idle t) (live, v)

-- The read fails: its block stays taken.
failed_io_leaks_example :
    (process_fs_req fails hook (answer fs_read (negsuc 4)) 20 reading).1.buf ≡ true
failed_io_leaks_example =
    ((failed_io_leaks fails hook (answer fs_read (negsuc 4)) 20 (incref 20 start_refs) 4 reading
        refl (read-Listed (negsuc 4)) reading-Fresh reading-FsInv keeps calm).1
      refl).1

-- Conversions that keep the value: texts that are not ASCII cannot be decoded.
data Value : Type 0 where
  text : Text → Value
  long : ℤ → Value
  ulonglong : ℕ → Value
  float : Timespec → Value

abbrev is_ascii : Text → Bool
is_ascii [] = true
is_ascii (c ∷ cs) = ltb c 128 && is_ascii cs

abbrev values : Values Value
values = record {
  of_text = λ t. if is_ascii t then some (text t) else none;
  of_long = λ n. some (long n);
  of_ulonglong = λ n. some (ulonglong n);
  of_time = λ t. some (float t);
}

abbrev entry_a : DirEnt
entry_a = record { name = 97 ∷ []; type_of = pos 1 }

abbrev entry_b : DirEnt
entry_b = record { name = 195 ∷ []; type_of = pos 2 }

-- A list with a name that cannot be decoded comes with an exception pending.
scandir_undecodable :
    scandir_value values true
      (λ i. record { item_made = true; appended = true })
      (entry_a ∷ entry_b ∷ [])
      5
    ≡ some (record {
      items =
          record { name = some (text (97 ∷ [])); type_of = some (long (pos 1)) }
          ∷ record { name = none; type_of = some (long (pos 2)) }
          ∷ [];
      live = 11;
      err = true;
    })
unfolding scandir_value
scandir_undecodable = refl

-- Without memory for the second item the list ends before it.
scandir_short :
    scandir_value values true
      (λ i. record { item_made = i == 0; appended = true })
      (entry_a ∷ entry_b ∷ [])
      5
    ≡ some (record {
      items = record { name = some (text (97 ∷ [])); type_of = some (long (pos 1)) } ∷ [];
      live = 9;
      err = false;
    })
unfolding scandir_value
scandir_short = refl

float_times_off : stat_float_times (pos 1) (pos 0) ≡ (pos 0, none)
unfolding stat_float_times
float_times_off = refl

float_times_told : stat_float_times (pos 0) (negsuc 0) ≡ (pos 0, some false)
unfolding stat_float_times
float_times_told = refl
