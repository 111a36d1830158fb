-- ===== src/Windows/Open.antt =====
-- A window of src/windows.c that is opened and closed again, as src/chat.c and src/sysmsg.c do it.
use mathlib.Core.Path.{subst}
use itmmorgue.Base.{
  ℕ, ◌≡◌, ◌<◌, refl, sym, ◌∙◌, ap, true, Option, none, some, ◌++◌, List, ok, Bytes, codes,
  get_elem?, set, or_undefined, set-set, >>=-eq-ok, get_elem?-set_self, lt_of_get_elem?, length-set,
  length, arith,
}
use itmmorgue.Config.Entries.{Lookup}
use itmmorgue.Windows.{
  Windows, WinInfo, large, fill_place, suffix_of, put_window, windows_fill, windows_names,
}
use itmmorgue.Windows.Draw.{change_window, open_window}

-- The place of a window depends on its state alone.
fill_place-same :
    (conf : Lookup) (buf : Bytes) (rows columns : ℕ) (i j : WinInfo)
    → i.state ≡ j.state
    → fill_place conf buf rows columns i ≡ fill_place conf buf rows columns j
unfolding fill_place
fill_place-same conf buf rows columns i j e =
    ap (λ st. fill_place conf buf rows columns (record i { state = st })) e

found_at {ℓ} : {A : Type ℓ} (o : Option A) {a : A} → or_undefined o ≡ ok a → o ≡ some a
found_at none e = cc
found_at (some b) e = cc

-- What a successful call with the state kept found, and did.
record Filled (conf : Lookup) (s s' : Windows) (win : ℕ) : Type 0 where
  name : Bytes
  name_is : get_elem? windows_names win ≡ some name
  old : WinInfo
  at : get_elem? s.windows win ≡ some old
  new : WinInfo
  placed :
      fill_place conf ((codes "win_" ++ name) ++ suffix_of old.state) s.rows s.columns old ≡ ok new
  result : s' ≡ put_window s win new

windows_fill-Filled :
    (conf : Lookup) (s s' : Windows) (win : ℕ)
    → windows_fill conf s win true ≡ ok s'
    → Filled conf s s' win
unfolding windows_fill
windows_fill-Filled conf s s' win e =
    let (name, found, rest) = >>=-eq-ok (or_undefined (get_elem? windows_names win)) _ e in
    let (old, at, more) = >>=-eq-ok (or_undefined (get_elem? s.windows win)) _ rest in
    let (new, placed, last) =
      >>=-eq-ok
        (fill_place conf ((codes "win_" ++ name) ++ suffix_of old.state) s.rows s.columns old) _
        more in
    record {
      name = name;
      name_is = found_at _ found;
      old = old;
      at = found_at _ at;
      new = new;
      placed = placed;
      result = cc last;
    }

windows_fill-eq :
    (conf : Lookup) (s : Windows) (win : ℕ) {i p : WinInfo} {name : Bytes}
    → get_elem? windows_names win ≡ some name
    → get_elem? s.windows win ≡ some i
    → fill_place conf ((codes "win_" ++ name) ++ suffix_of i.state) s.rows s.columns i ≡ ok p
    → windows_fill conf s win true ≡ ok (put_window s win p)
unfolding windows_fill
windows_fill-eq conf s win at_name at placed = rw (at_name, at, placed) refl

module _ (conf : Lookup) (s : Windows) (win : ℕ) (i : WinInfo)
    (at : get_elem? s.windows win ≡ some i) where
  abbrev raised : Windows
  raised = record (put_window s win (record i { state = large })) { focus = win }

  in_range : (ws : List WinInfo) → length ws ≡ length s.windows → win < length ws
  in_range ws e = omega (arith, lt_of_get_elem? s.windows win at, e)

  change_window-restores :
      (q p : WinInfo) {name : Bytes}
      → get_elem? windows_names win ≡ some name
      → fill_place conf ((codes "win_" ++ name) ++ suffix_of i.state) s.rows s.columns i ≡ ok p
      → set s.windows win p ≡ s.windows
      → change_window conf (put_window raised win q) win i.state s.focus ≡ ok s
  unfolding change_window
  change_window-restores q p at_name placed same =
      let r = record i { state = large } in
      let ws₁ = set (set s.windows win r) win q in
      let l₀ = length-set s.windows win r in
      let l₁ : length ws₁ ≡ length s.windows = length-set (set s.windows win r) win q ∙ l₀ in
      let shown : get_elem? ws₁ win ≡ some q =
        get_elem?-set_self (set s.windows win r) win q (in_range _ l₀) in
      let old = record q { state = i.state } in
      let back = record s { windows = set ws₁ win old } in
      let whole : set (set ws₁ win old) win p ≡ s.windows =
        set-set ws₁ win old p
        ∙ set-set (set s.windows win r) win q p
        ∙ set-set s.windows win r p
        ∙ same in
      rw shown (
        windows_fill-eq conf back win at_name (get_elem?-set_self ws₁ win old (in_range ws₁ l₁))
          (fill_place-same conf _ s.rows s.columns old i refl ∙ placed)
        ∙ ap (λ ws. ok (record s { windows = ws })) whole)

  -- If window `win` is where its state puts it, and `open_window` succeeds, then changing the
  -- window back to its state and the focus back to what it was gives the windows and the focus from
  -- before.
  pub change_window-open_window :
      (s₁ : Windows)
      → windows_fill conf s win true ≡ ok s
      → open_window conf s win ≡ ok s₁
      → change_window conf s₁ win i.state s.focus ≡ ok s
  unfolding open_window change_window
  change_window-open_window s₁ filled opened =
      let f = windows_fill-Filled conf s s win filled in
      let o = windows_fill-Filled conf raised s₁ win (rw at at opened) in
      let here : f.old ≡ i = cc (sym f.at ∙ at) in
      rw o.result (
        change_window-restores o.new f.new f.name_is
          (subst
            (λ (j : WinInfo).
              fill_place conf ((codes "win_" ++ f.name) ++ suffix_of j.state) s.rows s.columns j
              ≡ ok f.new)
            here f.placed)
          (ap (λ (v : Windows). v.windows) (sym f.result)))
