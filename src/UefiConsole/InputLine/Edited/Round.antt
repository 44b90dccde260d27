-- ===== src/UefiConsole/InputLine/Edited/Round.antt =====
-- One round of the loop in UefiConsoleInRead, for every key.
use uefi_toolkit_pkg.Base.{
  ℕ, zero, suc, ◌+◌, ◌-◌, ◌≤◌, ◌≡◌, ◌∙◌, refl, sym, ap, ap₂, subst, true, List, All, Lacks, Option,
  some, and_then, length, ltb, ◌==◌, arith, Bool-cases, ◌⊎◌, inl, inr,
}
use uefi_toolkit_pkg.UefiConsole.InputLine.{
  Editor, previous_node, next_node, delete_at, scan, recall, refresh,
}
use uefi_toolkit_pkg.UefiConsole.InputLine.Buffer.{remove_at}
use uefi_toolkit_pkg.UefiConsole.InputLine.Edited.{
  Line, recall_line, scan_line, Represents, Changed, refresh-Represents, refresh-still,
}
use uefi_toolkit_pkg.UefiConsole.InputLine.Edited.Keys.{Leads}
use uefi_toolkit_pkg.UefiConsole.InputLine.Edited.Removal.{delete_at-Leads, remove_at_end}
use uefi_toolkit_pkg.UefiConsole.InputLine.Edited.Replaced.{recall-none, recall-Leads}

module _ (max_str : ℕ) (history : List (List ℕ)) where
  -- What follows the switch over the keys.
  abbrev pub after_key : Option Editor → Option Editor
  after_key o = and_then o (λ e. and_then (recall max_str history e) (refresh max_str history))

  -- The round ends with an editor that holds the line.
  pub record Ends (o : Option Editor) (a : Line) : Type 0 where
    pub editor : Editor
    pub ends : o ≡ some editor
    pub holds : Represents max_str history editor a

  recall_skip : (e : Editor) → e.new_pos ≡ 0 → recall max_str history e ≡ some e
  unfolding recall
  recall_skip e h = let t : (e.new_pos == 0) ≡ true = ground (arith, h) in rw t refl

  refreshed :
      (e : Editor) (a : Line)
      → Represents max_str history e a ⊎ Changed max_str history e a
      → Ends (refresh max_str history e) a
  refreshed e a (inl r) =
      let (e', done, holds) = refresh-still max_str history e a r in
      record { editor = e'; ends = done; holds = holds }
  refreshed e a (inr c) =
      let (e', done, holds) = refresh-Represents max_str history e a c in
      record { editor = e'; ends = done; holds = holds }

  no_new :
      (e : Editor) (a : Line)
      → Represents max_str history e a ⊎ Changed max_str history e a
      → e.new_pos ≡ 0
  no_new e a (inl r) = r.new
  no_new e a (inr c) = c.new

  pub from_Leads : (o : Option Editor) (a : Line) → Leads max_str history o a → Ends (after_key o) a
  from_Leads o a l =
      let r = refreshed l.editor a l.holds in
      record {
        editor = r.editor;
        ends =
            ap after_key l.ends
            ∙ ap (λ o. and_then o (refresh max_str history))
                (recall_skip l.editor (no_new l.editor a l.holds))
            ∙ r.ends;
        holds = r.holds;
      }

  module _ (e : Editor) (a : Line) (r : Represents max_str history e a)
      (texts : All (Lacks 0) history) where
    from_recall :
        (n : ℕ)
        → n ≤ length history
        → Ends (after_key (some (record e { new_pos = n }))) (recall_line max_str history a n)
    from_recall zero inside =
        let skip = recall-none max_str history e a in
        let kept : Represents max_str history (record e { new_pos = 0 }) a = record {
          spare = r.spare;
          text = r.text;
          len = r.len;
          pos = r.pos;
          inside = r.inside;
          room = r.room;
          lacks = r.lacks;
          delete = r.delete;
          new = refl;
          line = r.line;
          nodes = r.nodes;
        } in
        let done = refreshed (record e { new_pos = 0 }) a (inl kept) in
        record {
          editor = done.editor;
          ends = ap (λ o. and_then o (refresh max_str history)) skip.0 ∙ done.ends;
          holds = subst (Represents max_str history done.editor) (sym skip.1) done.holds;
        }
    from_recall (suc n) inside =
        let l = recall-Leads max_str history e a (suc n) r texts (ground arith) inside in
        let done = refreshed l.editor (recall_line max_str history a (suc n)) l.holds in
        record {
          editor = done.editor;
          ends = ap (λ o. and_then o (refresh max_str history)) l.ends ∙ done.ends;
          holds = done.holds;
        }

    moved :
        (p q : ℕ)
        → p ≡ q
        → q ≤ length a.text
        → Ends (after_key (some (record e { cur_pos = p }))) (record a { pos = q })
    moved p q same low =
        from_Leads (some (record e { cur_pos = p })) (record a { pos = q })
          (record {
            editor = record e { cur_pos = p };
            ends = refl;
            holds = inl (record {
              spare = r.spare;
              text = r.text;
              len = r.len;
              pos = same;
              inside = low;
              room = r.room;
              lacks = r.lacks;
              delete = r.delete;
              new = r.new;
              line = r.line;
              nodes = r.nodes;
            });
          })

    pub still : Ends (after_key (some e)) a
    still = moved e.cur_pos a.pos r.pos r.inside

    pub scan_delete :
        Ends (after_key (scan max_str history e 0x08)) (scan_line max_str history a 0x08)
    unfolding scan scan_line
    scan_delete = elim (Bool-cases (e.string_len == 0)) [
      | inl nothing ↦
          let short : length a.text ≤ a.pos = ground (arith, nothing, r.len) in
          let same : a.text ≡ remove_at a.text a.pos = sym (remove_at_end a.text a.pos short) in
          rw nothing (subst (λ s. Ends (after_key (some e)) (record a { text = s })) same still)
      | inr some_text ↦
          let l = delete_at-Leads max_str history e a a.pos r r.inside in
          let at_cursor : Leads max_str history (delete_at max_str history e e.cur_pos)
              (record a { text = remove_at a.text a.pos }) =
            subst
              (λ i.
                Leads max_str history (delete_at max_str history e i)
                  (record a { text = remove_at a.text a.pos }))
              (sym r.pos) l in
          rw some_text (
            from_Leads (delete_at max_str history e e.cur_pos)
              (record a { text = remove_at a.text a.pos }) at_cursor)
    ]

    pub scan_up : Ends (after_key (scan max_str history e 0x01)) (scan_line max_str history a 0x01)
    unfolding scan scan_line
    scan_up =
        let n = previous_node (length history) in
        let low : previous_node (length history) a.line_pos ≤ length history =
          ground (arith, r.nodes) in
        subst
          (λ i.
            Ends (after_key (some (record e { new_pos = n i })))
              (recall_line max_str history a (n a.line_pos)))
          (sym r.line) (from_recall (n a.line_pos) low)

    pub scan_down :
        Ends (after_key (scan max_str history e 0x02)) (scan_line max_str history a 0x02)
    unfolding scan scan_line
    scan_down =
        let n = next_node (length history) in
        let low : next_node (length history) a.line_pos ≤ length history =
          ground (arith, r.nodes) in
        subst
          (λ i.
            Ends (after_key (some (record e { new_pos = n i })))
              (recall_line max_str history a (n a.line_pos)))
          (sym r.line) (from_recall (n a.line_pos) low)

    pub scan_left :
        Ends (after_key (scan max_str history e 0x04)) (scan_line max_str history a 0x04)
    unfolding scan scan_line
    scan_left = moved (e.cur_pos - 1) (a.pos - 1) (ap (λ n. n - 1) r.pos) (omega (arith, r.inside))

    pub scan_home :
        Ends (after_key (scan max_str history e 0x05)) (scan_line max_str history a 0x05)
    unfolding scan scan_line
    scan_home = moved 0 0 refl (omega arith)

    pub scan_end : Ends (after_key (scan max_str history e 0x06)) (scan_line max_str history a 0x06)
    unfolding scan scan_line
    scan_end = moved e.string_len (length a.text) r.len (omega arith)

    pub scan_right :
        Ends (after_key (scan max_str history e 0x03)) (scan_line max_str history a 0x03)
    unfolding scan scan_line
    scan_right =
        let same : ltb e.cur_pos e.string_len ≡ ltb a.pos (length a.text) = ap₂ ltb r.pos r.len in
        elim (Bool-cases (ltb a.pos (length a.text))) [
          | inl more ↦
              rw (same, more)
                (moved (e.cur_pos + 1) (a.pos + 1) (ap (λ n. n + 1) r.pos) (ground (arith, more)))
          | inr at_end ↦ rw (same, at_end) still
        ]
