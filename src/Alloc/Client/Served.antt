-- ===== src/Alloc/Client/Served.antt =====
-- What the allocator's answers mean for the heap of a client.
use low_level_programming.Base.{◌%◌, ◌≡◌}
use low_level_programming.Base.{
  ℕ, ◌+◌, ◌≤◌, ◌<◌, ◌≢◌, ◌⊎◌, inl, inr, refl, Bool, true, false, List, [], ◌∷◌, ◌++◌, arith,
}
use low_level_programming.Alloc.{Ptr, SysCall, map_failed}
use low_level_programming.Alloc.Sizes.{contents_offset, size_mod}
use low_level_programming.Alloc.Chain.{Block, Apart, ApartAll, Layout}
use low_level_programming.Alloc.Blocks.{SearchResult}
use low_level_programming.Alloc.Blocks.Take.{Served}
use low_level_programming.Alloc.Region.{Os}
use low_level_programming.Alloc.Region.Map.{Answers, Mapped, asked, elsewhere, fresh_block}
use low_level_programming.Alloc.Client.{Live, live_at}
use low_level_programming.Alloc.Client.Forest.{Cross, CrossAll}
use low_level_programming.Alloc.Client.InUse.{
  Has, HasAll, Has-taken, taken-Has, Has-insert, Has-middle, Has-ne_middle,
}
use low_level_programming.Alloc.Chain.Splice.{Apart-middle, Layout-drop}
use low_level_programming.Alloc.Client.InUse.{Layout-taken, ApartAll-taken}
use low_level_programming.Alloc.Client.Invariant.{Fresh, IsSystem}

-- What the system gave in one call or two is new, and the only mapping that was added.
pub Mapped-Fresh :
    (os : Os) (sys : IsSystem os) (before : List SysCall) (a n p : ℕ) (f : Bool)
    (calls : List SysCall)
    → Mapped os before a n p f calls
    → (0 < p) × (p + n < size_mod) × Fresh p n before
Mapped-Fresh os sys before a n p f calls (asked e) = sys.grants before a n p true e
Mapped-Fresh os sys before a n p f calls (elsewhere d e) =
    sys.grants (map_failed a n ∷ before) a n p false e

pub Mapped-aligned :
    (os : Os) (sys : IsSystem os) (before : List SysCall) (a n p : ℕ) (f : Bool)
    (calls : List SysCall)
    → Mapped os before a n p f calls
    → p % os.page_size ≡ 0
Mapped-aligned os sys before a n p f calls (asked e) = sys.aligned before a n p true e
Mapped-aligned os sys before a n p f calls (elsewhere d e) =
    sys.aligned (map_failed a n ∷ before) a n p false e

pub Fresh-Mapped :
    (os : Os) (before : List SysCall) (a n p : ℕ) (f : Bool) (calls : List SysCall) (p' m : ℕ)
    → Mapped os before a n p f calls
    → Fresh p' m calls
    → ((p' + m ≤ p) ⊎ (p + n ≤ p')) × Fresh p' m before
Fresh-Mapped os before a n p f calls p' m (asked e) h = h
Fresh-Mapped os before a n p f calls p' m (elsewhere d e) h = h

pub AllApart-Answers :
    (os : Os) (sys : IsSystem os) (calls : List SysCall) (bs : List Block)
    → ((p m : ℕ) → contents_offset ≤ m → Fresh p m calls → ApartAll (fresh_block p m) bs)
    → Answers os calls bs
AllApart-Answers os sys calls bs cover = record {
  page_pos = sys.page_pos;
  fixed = λ a n p big e.
      let (pos, fit, new) = sys.grants calls a n p true e in
      (sys.at calls a n p e, record { not_null = pos; ends = fit; apart = cover p n big new });
  anywhere = λ a n p big e.
      let (pos, fit, new) = sys.grants (map_failed a n ∷ calls) a n p false e in
      record { not_null = pos; ends = fit; apart = cover p n big new };
}

-- The block that serves a request, among those in use before.
module _ (q : ℕ) (cs after : List Block) (r : SearchResult) (v : Served q cs after r)
    (l : Layout after) where
  abbrev pub new_ptr : Ptr
  new_ptr = v.it.addr + contents_offset

  pub Has-Served : (m : Live) → Has m cs → Has m after
  Has-Served m h =
      taken-Has m after
        (rw v.now (Has-insert m v.before_it v.it v.behind_it (rw v.was at (Has-taken m cs h))))

  pub fresh-Has : (query : ℕ) → query ≤ q → Has (live_at new_ptr query) after
  fresh-Has query small = taken-Has (live_at new_ptr query) after (
      rw v.now (
        Has-middle (live_at new_ptr query) v.before_it v.it v.behind_it
          (v.in_use, refl, omega (arith, v.fits))))

  in_use-Layout : Layout (v.before_it ++ v.it ∷ v.behind_it)
  in_use-Layout = rw v.now at (Layout-taken after l)

  pub Has-ne_new : (m : Live) → Has m cs → m.ptr ≢ new_ptr
  Has-ne_new m h =
      Has-ne_middle m v.before_it v.it v.behind_it in_use-Layout (rw v.was at (Has-taken m cs h))

  pub Cross-ne_new : (m : Live) (ds : List Block) → Cross after ds → Has m ds → m.ptr ≢ new_ptr
  Cross-ne_new m [] x h e = h
  Cross-ne_new m (d ∷ ds) x (inl h) e =
      let apart : Apart d v.it =
        Apart-middle d v.before_it v.it v.behind_it (rw v.now at (ApartAll-taken d after x.0)) in
      omega (arith, apart, h.1, e)
  Cross-ne_new m (d ∷ ds) x (inr h) e = Cross-ne_new m ds x.1 h e

  pub CrossAll-ne_new :
      (m : Live) (css : List (List Block)) → CrossAll after css → HasAll m css → m.ptr ≢ new_ptr
  CrossAll-ne_new m [] x h e = h
  CrossAll-ne_new m (cs ∷ css) x (inl h) e = Cross-ne_new m cs x.0 h e
  CrossAll-ne_new m (cs ∷ css) x (inr h) e = CrossAll-ne_new m css x.1 h e

  pub ptr_fits : (0 < v.it.addr) × (new_ptr < size_mod)
  ptr_fits =
      let k = Layout-drop v.before_it (v.it ∷ v.behind_it) in_use-Layout in
      (k.0, omega (arith, k.1))
