-- ===== src/Mm/Page/Walk.antt =====
-- The loop over the pages of a range, where its body stores one entry: it returns if the stack has
-- the pages for new tables, stores each entry of the range and changes no other.
use valeo.Base.{
  ℕ, zero, suc, ◌+◌, ◌-◌, ◌*◌, ◌/◌, ◌%◌, ◌^◌, ◌≤◌, ◌<◌, ◌≡◌, ◌⊎◌, refl, ap, ◌∙◌, subst, inl, inr,
  arith, ◌==◌, List, ◌∷◌, Bool-cases,
}
use valeo.Base.Run.{Returns, update, Returns-bind, Returns-mono}
use valeo.Mm.Page.{
  Paging, Mm, window, pd, u32, page_size, set_pte, get_pt_address, cursor, walk, over_pages, Effect,
  reload_cr3,
}
use valeo.Mm.Page.Tables.{IsPresent, available, Kept, TableReady, get_pt_address-ready}

-- A place in the tables: the entry `pt + offset`, whose table is there.
pub record CursorReady (index : ℕ) (used : ℕ) (s : Paging) (at : ℕ × ℕ) (t : Paging) : Type 0 where
  pub here : at.0 + at.1 ≡ index
  pub aligned : at.0 % 1024 ≡ 0
  pub inside : at.1 < 1024
  pub ready : IsPresent (pd t (at.0 / 1024))
  pub kept : Kept 0 0 s t
  pub index_small : t.fps_index < 2 ^ 32
  pub pages : available s ≤ available t + used

abbrev pub crossing : ℕ → ℕ
crossing offset = offset / 1024

pub cursor-ready :
    (pt offset logical : ℕ) (s : Paging)
    → pt % 1024 ≡ 0
    → offset ≤ 1024
    → logical / 2 ^ 12 ≡ pt + offset
    → IsPresent (pd s (pt / 1024))
    → s.fps_index < 2 ^ 32
    → crossing offset ≤ available s
    → pt + offset < window
    → Returns (CursorReady (pt + offset) (crossing offset) s) (cursor pt offset logical s)
unfolding cursor
cursor-ready pt offset logical s al off l ready small enough low =
    elim (Bool-cases (offset == 1024)) [
      | inl end ↦ rw end (
          Returns-bind (TableReady (logical / 2 ^ 22) s) _ (get_pt_address logical s) _
            (get_pt_address-ready logical s small (ground arith) (omega (arith, l)))
            λ a t r. record {
              here = ground arith;
              aligned = ground arith;
              inside = omega arith;
              ready = let e : a / 2 ^ 12 / 1024 ≡ logical / 2 ^ 22 = ground arith in rw e r.ready;
              kept = r.kept;
              index_small = r.index_small;
              pages = ground arith;
            })
      | inr more ↦ rw more (record {
        here = refl;
        aligned = al;
        inside = ground arith;
        ready = ready;
        kept = record { tables = λ d p. refl; entries = λ j low p o. refl };
        index_small = small;
        pages = omega arith;
      })
    ]

-- The run has stored `g` of the physical address in each entry of the range, and nothing else.
pub record Stored (g : ℕ → ℕ) (index count physical used : ℕ) (s t : Paging) : Type 0 where
  pub entry : (i : ℕ) → i < count → t.pt_map (index + i) ≡ g (u32 (physical + i * page_size))
  pub there : (i : ℕ) → i < count → IsPresent (pd t ((index + i) / 1024))
  pub kept : Kept index count s t
  pub index_small : t.fps_index < 2 ^ 32
  pub pages : available s ≤ available t + used

Stored-cons :
    (g : ℕ → ℕ) {index used used' count physical : ℕ} {s s1 t : Paging} {at : ℕ × ℕ} (total : ℕ)
    → used + used' ≤ total
    → physical < 2 ^ 32
    → index + suc count ≤ window
    → CursorReady index used s at s1
    → Stored g
        (index + 1)
        count
        (u32 (physical + page_size))
        used'
        (record s1 { pt_map = update s1.pt_map (at.0 + at.1) (g physical) })
        t
    → Stored g index (suc count) physical total s t
Stored-cons g {index} {count} {physical} {s} {s1} {t} {at} total le small fits c r = record {
  entry = entry;
  there = there;
  kept = record {
    tables = λ d p. r.kept.tables d (carried d p) ∙ same d ∙ c.kept.tables d p;
    entries = λ j low p o.
        r.kept.entries j low (carried (j / 1024) p) (ground arith)
        ∙ untouched j o
        ∙ c.kept.entries j low p (inr (omega arith));
  };
  index_small = r.index_small;
  pages = omega (arith, le, c.pages, r.pages);
}
  where
    s2 : Paging
    s2 = record s1 { pt_map = update s1.pt_map (at.0 + at.1) (g physical) }

    -- The entry lies below those of the directory.
    same : (d : ℕ) → pd s2 d ≡ pd s1 d
    same d = ground (arith, c.here, fits)

    carried : (d : ℕ) → IsPresent (pd s d) → IsPresent (pd s2 d)
    carried d p = rw (same d, c.kept.tables d p) p

    untouched : (j : ℕ) → (j < index) ⊎ (index + suc count ≤ j) → s2.pt_map j ≡ s1.pt_map j
    untouched j o = ground (arith, c.here)

    at_index : index / 1024 ≡ at.0 / 1024
    at_index = omega (arith, c.here, c.aligned, c.inside)

    there : (i : ℕ) → i < suc count → IsPresent (pd t ((index + i) / 1024))
    there zero h =
        let e : (index + 0) / 1024 ≡ at.0 / 1024 = omega (arith, at_index) in
        rw (e, r.kept.tables (at.0 / 1024) (rw (same (at.0 / 1024)) c.ready), same (at.0 / 1024))
          c.ready
    there (suc i) h =
        let e : (index + suc i) / 1024 ≡ (index + 1 + i) / 1024 = omega arith in
        rw e (r.there i (omega arith))

    here : update s1.pt_map (at.0 + at.1) (g physical) index ≡ g physical
    here = ground (arith, c.here)

    entry : (i : ℕ) → i < suc count → t.pt_map (index + i) ≡ g (u32 (physical + i * page_size))
    entry zero h =
        let first : physical ≡ u32 (physical + 0 * page_size) = omega arith in
        ap t.pt_map (omega arith)
        ∙ r.kept.entries index (omega (arith, fits)) (rw (at_index, same (at.0 / 1024)) c.ready)
            (inl (omega arith))
        ∙ here
        ∙ ap g first
    entry (suc i) h = ap t.pt_map (omega arith) ∙ r.entry i (omega arith) ∙ ap g (omega arith)

module _ (g : ℕ → ℕ) where
  abbrev store : ℕ → ℕ → Mm (Unit {0})
  store i p = set_pte i (g p)

  pub walk-stores :
      (count pt offset logical physical : ℕ) (s : Paging)
      → pt % 1024 ≡ 0
      → offset ≤ 1024
      → (0 < count → logical / 2 ^ 12 ≡ pt + offset)
      → pt + offset + count ≤ window
      → logical < 2 ^ 32
      → physical < 2 ^ 32
      → IsPresent (pd s (pt / 1024))
      → s.fps_index < 2 ^ 32
      → (offset + count - 1) / 1024 ≤ available s
      → Returns
          (λ _. Stored g (pt + offset) count physical ((offset + count - 1) / 1024) s)
          (walk store count pt offset logical physical s)
  unfolding walk
  walk-stores zero pt offset logical physical s al off l fits lb pb ready small enough = record {
    entry = λ i h. elim h [ ];
    there = λ i h. elim h [ ];
    kept = record { tables = λ d p. refl; entries = λ j low p o. refl };
    index_small = small;
    pages = omega arith;
  }
  walk-stores (suc count) pt offset logical physical s al off l fits lb pb ready small enough =
      Returns-bind (CursorReady (pt + offset) (crossing offset) s) _ (cursor pt offset logical s) _
        (cursor-ready pt offset logical s al off (l (omega arith)) ready small (omega arith)
          (omega arith))
        λ at s1 c.
          let s2 = record s1 { pt_map = update s1.pt_map (at.0 + at.1) (g physical) } in
          let same_pd : (d : ℕ) → pd s2 d ≡ pd s1 d = λ d. ground (arith, c.here) in
          Returns-mono
            (λ _.
              Stored g (at.0 + (at.1 + 1)) count (u32 (physical + page_size))
                ((at.1 + 1 + count - 1) / 1024) s2)
            _
            (walk store count at.0 (at.1 + 1) (u32 (logical + page_size))
              (u32 (physical + page_size)) s2)
            (walk-stores count at.0 (at.1 + 1) (u32 (logical + page_size))
              (u32 (physical + page_size)) s2 c.aligned (omega (arith, c.inside))
              (λ h. omega (arith, l (omega arith), c.here)) (omega (arith, c.here)) (omega arith)
              (omega arith) (rw (same_pd (at.0 / 1024)) c.ready) c.index_small
              (omega (arith, c.here, c.aligned, c.inside, c.pages)))
            λ _ t r.
              Stored-cons g ((offset + suc count - 1) / 1024)
                (omega (arith, c.here, c.aligned, c.inside)) pb (omega arith) c
                (subst
                  (λ k.
                    Stored g k count (u32 (physical + page_size)) ((at.1 + 1 + count - 1) / 1024) s2
                      t)
                  (omega (arith, c.here)) r)

Stored-after :
    (g : ℕ → ℕ) {index count physical used : ℕ} {s s1 t : Paging} (total : ℕ)
    → used + 1 ≤ total
    → available s ≤ available s1 + 1
    → Kept 0 0 s s1
    → Stored g index count physical used s1 t
    → Stored g index count physical total s t
Stored-after g total le one k r = record {
  entry = r.entry;
  there = r.there;
  kept = record {
    tables = λ d p. r.kept.tables d (rw (k.tables d p) p) ∙ k.tables d p;
    entries = λ j low p o.
        r.kept.entries j low (rw (k.tables (j / 1024) p) p) o
        ∙ k.entries j low p (inr (omega arith));
  };
  index_small = r.index_small;
  pages = omega (arith, r.pages);
}

Stored-emit :
    (g : ℕ → ℕ) (e : Effect) {index count physical used : ℕ} {s t : Paging}
    → Stored g index count physical used s t
    → Stored g index count physical used s (record t { effects = e ∷ t.effects })
Stored-emit g e r = record {
  entry = r.entry;
  there = r.there;
  kept = record { tables = r.kept.tables; entries = r.kept.entries };
  index_small = r.index_small;
  pages = r.pages;
}

-- The last thing that the run did was to reload CR3, which drops every stale translation.
abbrev pub IsFlushed : Paging → Type 0
IsFlushed t = (rest : List Effect) × (t.effects ≡ reload_cr3 ∷ rest)

-- Pages enough for every new page table that a range of `count` pages can need.
abbrev pub HasPages : ℕ → Paging → Type 0
HasPages count s = (s.fps_index < 2 ^ 32) × (count / 1024 + 2 ≤ available s)

module _ (g : ℕ → ℕ) where
  pub over_pages-stores :
      (physical logical count : ℕ) (s : Paging)
      → physical < 2 ^ 32
      → logical < 2 ^ 32
      → logical / page_size < window
      → logical / page_size + count ≤ window
      → HasPages count s
      → Returns
          (λ _ t.
            Stored g (logical / page_size) count physical (count / 1024 + 2) s t × IsFlushed t)
          (over_pages (λ i p. set_pte i (g p)) physical logical count s)
  unfolding over_pages
  over_pages-stores physical logical count s pb lb low fits pages =
      Returns-bind (TableReady (logical / 2 ^ 22) s) _ (get_pt_address logical s) _
        (get_pt_address-ready logical s pages.0 (omega (arith, pages.1)) (omega (arith, low)))
        λ pt s1 c.
          let index : pt / 2 ^ 12 + u32 (logical + 2 ^ 32 - pt) / 2 ^ 12 ≡ logical / page_size =
            omega (arith, c.address) in
          let table : pt / 2 ^ 12 / 1024 ≡ logical / 2 ^ 22 = omega (arith, c.address) in
          Returns-bind
            (λ _.
              Stored g (pt / 2 ^ 12 + u32 (logical + 2 ^ 32 - pt) / 2 ^ 12) count physical
                ((u32 (logical + 2 ^ 32 - pt) / 2 ^ 12 + count - 1) / 1024) s1)
            _
            (walk (store g) count (pt / 2 ^ 12) (u32 (logical + 2 ^ 32 - pt) / 2 ^ 12) logical
              physical s1)
            _
            (walk-stores g count (pt / 2 ^ 12) (u32 (logical + 2 ^ 32 - pt) / 2 ^ 12) logical
              physical s1 (omega (arith, c.address)) (omega (arith, c.address))
              (λ h. omega (arith, index)) (omega (arith, index)) lb pb (rw table c.ready)
              c.index_small (omega (arith, c.address, c.one_page, pages.1)))
            λ _ t r. (
              Stored-emit g reload_cr3 (
                  Stored-after g (count / 1024 + 2) (omega (arith, c.address)) c.one_page c.kept (
                    subst
                      (λ k.
                        Stored g k count physical
                          ((u32 (logical + 2 ^ 32 - pt) / 2 ^ 12 + count - 1) / 1024) s1 t)
                      index r)),
              (t.effects, refl),
            )
