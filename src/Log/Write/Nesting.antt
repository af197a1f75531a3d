-- ===== src/Log/Write/Nesting.antt =====
-- src/ipm_log_write.c: the nesting of the elements that are written.
use mathlib.Core.List.{flatten}
use ipm_nci.Base.{
  ℕ, suc, ◌≡◌, refl, ap, ◌∙◌, Bool, true, false, if◌then◌else◌, ◌==◌, List, [], ◌∷◌, ◌++◌, map,
  Option, none, some, arith,
}
use ipm_nci.Base.Bits.Flags.{has}
use ipm_nci.Base.Options.{◌>>=◌}
use ipm_nci.Base.Strings.{Str}
use ipm_nci.Flags.{ipm_hpm_canceled}
use ipm_nci.Hash.{Entry}
use ipm_nci.Layout.{identity}
use ipm_nci.Log.Write.{
  Name, Piece, opens, closes, leaf, text, prolog, canceled, exec_texts, Sizes, Written, exec_pieces,
  env_pieces, mask_pieces, counter_pieces, func_pieces, region_pieces, regions_pieces, hash_pieces,
  ipm_job_profile, task, exec, pre, exec_bin, call_mask, regions, region, hpm, hash,
}

code : Name → ℕ
code ipm_job_profile = 0
code task = 1
code exec = 2
code pre = 3
code exec_bin = 4
code call_mask = 5
code regions = 6
code region = 7
code hpm = 8
code hash = 9

-- A reader with the stack of the open elements; `none` is a closing tag out of place.
unfoldable pub nest : List Piece → List Name → Option (List Name)
unfolding code
nest [] st = some st
nest (opens n ∷ ps) st = nest ps (n ∷ st)
nest (closes n ∷ ps) [] = none
nest (closes n ∷ ps) (m ∷ st) = let rest = nest ps st in if code n == code m then rest else none
nest (prolog ∷ ps) st = nest ps st
nest (leaf l ∷ ps) st = nest ps st
nest (text s ∷ ps) st = nest ps st

-- Reading leads from the open elements st to the open elements u.
abbrev pub Leads : List Name → List Name → List Piece → Type 0
Leads st u ps = nest ps st ≡ some u

nest-append : (ps qs : List Piece) (st : List Name) → nest (ps ++ qs) st ≡ (nest ps st >>= nest qs)
unfolding nest
nest-append [] qs st = refl
nest-append (opens n ∷ ps) qs st = nest-append ps qs (n ∷ st)
nest-append (closes n ∷ ps) qs [] = refl
nest-append (closes n ∷ ps) qs (m ∷ st) = ground (arith, nest-append ps qs st)
nest-append (prolog ∷ ps) qs st = nest-append ps qs st
nest-append (leaf l ∷ ps) qs st = nest-append ps qs st
nest-append (text s ∷ ps) qs st = nest-append ps qs st

pub Leads-append :
    (a b c : List Name) (ps qs : List Piece) → Leads a b ps → Leads b c qs → Leads a c (ps ++ qs)
Leads-append a b c ps qs e f = nest-append ps qs a ∙ ap (λ o. o >>= nest qs) e ∙ f

pub Leads-if :
    (a b : List Name) (t : Bool) (ps qs : List Piece)
    → Leads a b ps
    → Leads a b qs
    → Leads a b (if t then ps else qs)
Leads-if a b true ps qs e f = e
Leads-if a b false ps qs e f = f

-- Pieces that open no element and close none.
flat_texts : (lines : List Str) (st : List Name) → Leads st st (map text lines)
unfolding nest
flat_texts [] st = refl
flat_texts (l ∷ ls) st = flat_texts ls st

pub flat_env : (ws : List Str) (st : List Name) → Leads st st (env_pieces ws)
unfolding nest env_pieces
flat_env [] st = refl
flat_env (w ∷ ws) st = ground (arith, flat_env ws st)

pub flat_masks : (masks cs : List ℕ) (st : List Name) → Leads st st (mask_pieces masks cs)
unfolding nest mask_pieces
flat_masks masks [] st = refl
flat_masks masks (c ∷ cs) st = ground (arith, flat_masks masks cs st)

flat_counters :
    (z : Sizes) (t : Written) (r : ℕ) (is : List ℕ) (st : List Name)
    → Leads st st (counter_pieces z t r is)
unfolding nest counter_pieces
flat_counters z t r [] st = refl
flat_counters z t r (i ∷ is) st = flat_counters z t r is st

flat_funcs : (t : Written) (r : ℕ) (cs : List ℕ) (st : List Name) → Leads st st (func_pieces t r cs)
unfolding nest func_pieces
flat_funcs t r [] st = refl
flat_funcs t r (c ∷ cs) st = ground (arith, flat_funcs t r cs st)

pub flat_hash : (t : Written) (es : List Entry) (st : List Name) → Leads st st (hash_pieces t es)
unfolding nest hash_pieces
flat_hash t [] st = refl
flat_hash t (e ∷ es) st = ground (arith, flat_hash t es st)

-- Groups that are read one after the other, with the open elements between them.
pub data LeadsThrough (c : List Name) : List Name → List (List Piece) → Type 0 where
  finish : {a : List Name} → a ≡ c → LeadsThrough c a []
  next :
      {a : List Name} {g : List Piece} {gs : List (List Piece)} (b : List Name)
      → Leads a b g
      → LeadsThrough c b gs
      → LeadsThrough c a (g ∷ gs)

pub Leads-flatten :
    (c a : List Name) (gs : List (List Piece)) → LeadsThrough c a gs → Leads a c (flatten gs)
unfolding nest flatten
Leads-flatten c a [] (finish e) = ap some e
Leads-flatten c a (g ∷ gs) (next b e rest) =
    Leads-append a b c g (flatten gs) e (Leads-flatten c b gs rest)

flat_exec_texts :
    (rank : ℕ) (file : Option (List Str)) (st : List Name) → Leads st st (exec_texts rank file)
unfolding exec_texts nest
flat_exec_texts rank none st = ground arith
flat_exec_texts rank (some ls) st = ground (arith, flat_texts ls st)

pub flat_exec :
    (rank : ℕ) (file : Option (List Str)) (st : List Name)
    → Leads st st (exec_pieces exec rank file)
unfolding exec_pieces nest
flat_exec rank file st =
    let inside = pre ∷ exec ∷ st in
    Leads-flatten st st _ (
      next inside refl
        (next inside (flat_exec_texts rank file inside) (next st refl (finish refl))))

pub flat_exec_bin :
    (rank : ℕ) (file : Option (List Str)) (st : List Name)
    → Leads st st (exec_pieces exec_bin rank file)
unfolding exec_pieces nest
flat_exec_bin rank file st =
    let inside = pre ∷ exec_bin ∷ st in
    Leads-flatten st st _ (
      next inside refl
        (next inside (flat_exec_texts rank file inside) (next st refl (finish refl))))

flat_region : (z : Sizes) (t : Written) (r : ℕ) (st : List Name) → Leads st st (region_pieces z t r)
unfolding region_pieces nest
flat_region z t r st =
    let inside = hpm ∷ region ∷ st in
    Leads-flatten st st _ (
      next inside refl (
        next inside
          (Leads-if inside inside (has t.flags ipm_hpm_canceled) (text canceled ∷ []) _ refl
            (flat_counters z t r (identity z.counters) inside))
          (next (region ∷ st) refl (
            next (region ∷ st) (flat_funcs t r (identity (suc z.max_calls)) (region ∷ st))
              (next st refl (finish refl))))))

pub flat_regions :
    (z : Sizes) (t : Written) (rs : List ℕ) (st : List Name) → Leads st st (regions_pieces z t rs)
unfolding regions_pieces nest
flat_regions z t [] st = refl
flat_regions z t (r ∷ rs) st =
    Leads-append st st st (region_pieces z t r) (regions_pieces z t rs) (flat_region z t r st)
      (flat_regions z t rs st)
