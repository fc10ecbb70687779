-- ===== src/Handle/Lifecycle.antt =====
-- The life of one handle as a step relation: what Python code does with it, in any order, and the
-- callbacks that libuv makes. `ext` counts the references that the code outside the handle holds;
-- a method runs only while its caller holds one. The cycle collector is left out.
use pyuv.Base.{◌<◌, ◌≡◌, Bool, true, false, Option, some}
use pyuv.Py.{Obj, Refs, incref, decref}
use pyuv.Uv.{Libuv, handle_close_cb, handle_dealloc_close_cb}
use pyuv.Handle.Defs.{
  Handle, handle_incref, handle_decref, initialize_handle, dict_get, dict_set, run_user, close_cb,
  dealloc_close_cb, func_close, tp_dealloc,
}
use pyuv.Handle.Ownership.{result_ref, fired}

pub record World (Hdl : Type 0) : Type 0 where
  pub handle : Handle Hdl
  pub ext : Refs

abbrev pub world : {Hdl : Type 0} → Handle Hdl → Refs → World Hdl
world s ext = record { handle = s; ext = ext }

-- The handle with another count of references.
abbrev pub recount : {Hdl : Type 0} → Refs → Handle Hdl → Handle Hdl
recount r s = record s { refs = r }

module _ (U : Libuv) (me : Obj) where
  open U use {Hdl, is_closing, pending, take}

  -- What Python code does: it takes and drops references, and calls methods. `start` and `stop`
  -- stand for the methods of the subclasses that use the two macros.
  pub data Act : World Hdl → World Hdl → Type 0 where
    hold :
        (s : Handle Hdl) (ext : Refs) (o : Obj)
        → (o ≡ me → 0 < ext me)
        → Act (world s ext) (world (recount (incref o s.refs) s) (incref o ext))
    drop :
        (s : Handle Hdl) (ext : Refs) (o : Obj)
        → 0 < ext o
        → Act (world s ext) (world (recount (decref o s.refs) s) (decref o ext))
    init :
        (s : Handle Hdl) (ext : Refs) (loop : Obj) (h : Hdl)
        → 0 < ext me
        → s.initialized ≡ false
        → is_closing h ≡ false
        → Act (world s ext) (world (initialize_handle loop (record s { uv_handle = h })) ext)
    close :
        (s : Handle Hdl) (ext : Refs) (callable : Obj → Bool) (args : Option (Option Obj))
        → 0 < ext me
        → Act (world s ext) (world (func_close U callable me args s).1 ext)
    start :
        (s : Handle Hdl) (ext : Refs)
        → 0 < ext me
        → s.initialized ≡ true
        → is_closing s.uv_handle ≡ false
        → Act (world s ext) (world (handle_incref me s) ext)
    stop :
        (s : Handle Hdl) (ext : Refs)
        → 0 < ext me
        → s.initialized ≡ true
        → is_closing s.uv_handle ≡ false
        → Act (world s ext) (world (handle_decref me s) ext)
    get_dict :
        (s : Handle Hdl) (ext : Refs) (new : Option Obj)
        → 0 < ext me
        → Act (world s ext) (world (dict_get new s).1 (result_ref (dict_get new s).0 ext))
    set_dict :
        (s : Handle Hdl) (ext : Refs) (is_dict : Obj → Bool) (val : Option Obj)
        → 0 < ext me
        → Act (world s ext) (world (dict_set is_dict val s).1 ext)

  pub data Acts (w : World Hdl) : World Hdl → Type 0 where
    done : Acts w w
    then : {v u : World Hdl} → Acts w v → Act v u → Acts w u

  -- `user_close` calls the user's function, which acts as any Python code does.
  pub data Step : World Hdl → World Hdl → Type 0 where
    act : {w v : World Hdl} → Act w v → Step w v
    dealloc :
        (s : Handle Hdl) (ext : Refs)
        → s.freed ≡ false
        → s.refs me ≡ 0
        → Step (world s ext) (world (tp_dealloc U me s) ext)
    uv_dealloc_close :
        (s : Handle Hdl) (ext : Refs)
        → pending s.uv_handle ≡ some handle_dealloc_close_cb
        → Step (world s ext) (world (dealloc_close_cb me (fired U me s)) ext)
    uv_close :
        (s : Handle Hdl) (ext : Refs) (call : Obj → Handle Hdl → Option Obj × Handle Hdl)
        (hook : Handle Hdl → Handle Hdl)
        → pending s.uv_handle ≡ some handle_close_cb
        → (ext' : Refs)
        → ((cb : Obj)
            → s.on_close_cb ≡ some cb
            → Acts
                (world (fired U me s) (incref me ext))
                (world (run_user call hook cb (fired U me s)) (incref me ext')))
        → Step (world s ext) (world (close_cb call hook me (fired U me s)).1 ext')

  pub data Reach (w : World Hdl) : World Hdl → Type 0 where
    here : Reach w w
    next : {v u : World Hdl} → Reach w v → Step v u → Reach w u
