-- ===== src/Append/Races.antt =====
-- Two appends to one record whose halves interleave.
use termin_server.Base.{
  false, codes, text_eq, Option, some, Text, Json, Jsons, add_last, lookup, ◌≡◌, ap, ◌∙◌,
}
use termin_server.Identity.Users.{User}
use termin_server.Append.{
  Backend, Row, done, RowFilter, Server, Request, prepare, commit, entries_of,
}
use termin_server.Append.Stored.{
  Laws, with_entries, prepare-done, conclude-done, update_record-done, entries_of-with_entries,
}

module _ {Db : Type 0} (b : Backend Db) (laws : Laws b) where
  commit-done :
      (q : Request) (entry entry' : Json) (entries : Jsons) (s s' : Server Db) (row : Row)
      → text_eq q.field (codes "id") ≡ false
      → b.select q.content q.key s.db ≡ some row
      → commit b q (entry, entries) s ≡ (done entry', s')
      → b.select q.content q.key s'.db ≡ some (with_entries b q.field entries row)
  unfolding commit
  commit-done q entry entry' entries s s' row i w h =
      let (row', u, m, n) = conclude-done b laws q entry entry' _ s s' h in
      let (c, again) = update_record-done b laws q entries s.db row row' s'.db i w u in
      again ∙ ap (λ (r : Row). some r) c

  -- Of two appends to one field, not the id, of one record that both read before either writes, and that both
  -- succeed, the entry of the first to write is lost: the field ends with the old entries and the
  -- entry of the second.
  pub commit-commit :
      (q : Request) (user : Option User) (row_filter : Option RowFilter) (entry_id now : Text)
      (payload payload' : Json) (entry entry' told told' : Json) (entries entries' : Jsons)
      (s s1 s2 : Server Db) (row : Row)
      → text_eq q.field (codes "id") ≡ false
      → b.select q.content q.key s.db ≡ some row
      → prepare b q payload s.db ≡ done (entry, entries)
      → prepare b
          (record q { user = user; row_filter = row_filter; entry_id = entry_id; now = now })
          payload'
          s.db
        ≡ done (entry', entries')
      → commit b q (entry, entries) s ≡ (done told, s1)
      → commit b
          (record q { user = user; row_filter = row_filter; entry_id = entry_id; now = now })
          (entry', entries')
          s1
        ≡ (done told', s2)
      → (last : Row) × (b.select q.content q.key s2.db ≡ some last)
        × (entries_of b (lookup q.field last) ≡ add_last (entries_of b (lookup q.field row)) entry')
  commit-commit q user row_filter entry_id now payload payload' entry entry' told told' entries
        entries' s s1 s2 row i w p p' c c' =
      let q' : Request = record q {
        user = user;
        row_filter = row_filter;
        entry_id = entry_id;
        now = now;
      } in
      let first = commit-done q entry told entries s s1 row i w c in
      let second = commit-done q' entry' told' entries' s1 s2 _ i first c' in
      let (row', w', o, a) = prepare-done b q' payload' s.db (entry', entries') p' in
      let same : row' ≡ row = cc in
      (
        _,
        second,
        entries_of-with_entries b laws q.field entries' _
            ∙ (a ∙ ap (λ (r : Row). add_last (entries_of b (lookup q.field r)) entry') same),
      )
