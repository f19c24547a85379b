-- ===== src/Repository/Store/Filed.antt =====
-- The revisions on record (`profile_revisions`) beside the profiles that are there.
use android_streamdeck.Base.{
  ℕ, ◌+◌, ◌≡◌, refl, Bool, false, not, ◌&&◌, Option, none, some, [], ◌∷◌, arith, is_none, leb,
}
use android_streamdeck.Base.Dict.{
  Dict, lookup, HasKeys, insert-HasKeys, erase-HasKeys, lookup-insert, lookup-erase,
}
use android_streamdeck.Profile.{Profile}
use android_streamdeck.Repository.Store.{
  Row, Reason, Db, row_of, revision_at, deactivate_all, delete_row,
}
use android_streamdeck.Repository.Store.Rows.{
  deactivated, lookup-deactivate_all, revision_at-append, revision_at-keep,
}
use android_streamdeck.Repository.Store.Steps.{revision_of, written}

-- `rev` is one of the revisions 1 up to the row's.
abbrev pub has_revision : ℕ → Option Row → Bool
has_revision rev none = false
has_revision rev (some row) = leb 1 rev && leb rev row.revision

pub record IsFiled (db : Db) : Type 0 where
  pub keys : HasKeys db.profiles
  pub recorded :
      (id rev : ℕ)
      → is_none (revision_at id rev db.revisions) ≡ not (has_revision rev (lookup id db.profiles))
  pub owned :
      (id rev : ℕ) (p : Profile)
      → revision_at id rev db.revisions ≡ some p
      → (p.id ≡ id) × (p.revision ≡ rev)

is_none-deactivated :
    (rev : ℕ) (o : Option Row) → has_revision rev (deactivated o) ≡ has_revision rev o
is_none-deactivated rev none = refl
is_none-deactivated rev (some r) = refl

deactivate_all-HasKeys : (d : Dict Row) → HasKeys d → HasKeys (deactivate_all d)
unfolding deactivate_all
deactivate_all-HasKeys [] h = tt
deactivate_all-HasKeys ((i, r) ∷ d) h =
    ground (arith, deactivate_all-HasKeys d h.1, lookup-deactivate_all i d)

pub deactivate_all-IsFiled :
    (db : Db) → IsFiled db → IsFiled (record db { profiles = deactivate_all db.profiles })
deactivate_all-IsFiled db v = record {
  keys = deactivate_all-HasKeys db.profiles v.keys;
  recorded = λ id rev.
      rw (lookup-deactivate_all id db.profiles, is_none-deactivated rev (lookup id db.profiles))
        (v.recorded id rev);
  owned = v.owned;
}

pub delete_row-IsFiled : (k : ℕ) (db : Db) → IsFiled db → IsFiled (delete_row k db)
unfolding delete_row
delete_row-IsFiled k db v = record {
  keys = erase-HasKeys k db.profiles v.keys;
  recorded = λ id rev. ground (
    arith,
    v.recorded id rev,
    lookup-erase k id db.profiles v.keys,
    revision_at-keep id rev k db.revisions,
  );
  owned = λ id rev p e. ground (arith, v.owned id rev p, revision_at-keep id rev k db.revisions);
}

module _ (wire : Profile) (reason : Reason) (active : Bool) (created now : ℕ) (db : Db)
    (v : IsFiled db) where
  written-owned :
      (id rev : ℕ) (p : Profile)
      → revision_at id rev (written wire reason active created now db).revisions ≡ some p
      → (p.id ≡ id) × (p.revision ≡ rev)
  written-owned id rev p e = ground (
    arith,
    v.owned id rev p,
    revision_at-append id rev db.revisions (revision_of wire reason now),
  )

  -- A first revision of a profile that was not there.
  pub written_new-IsFiled :
      lookup wire.id db.profiles ≡ none
      → wire.revision ≡ 1
      → IsFiled (written wire reason active created now db)
  written_new-IsFiled absent first = record {
    keys = insert-HasKeys wire.id (row_of wire active created now) db.profiles v.keys;
    recorded = λ id rev. ground (
      arith,
      absent,
      v.recorded id rev,
      lookup-insert wire.id id (row_of wire active created now) db.profiles,
      revision_at-append id rev db.revisions (revision_of wire reason now),
    );
    owned = written-owned;
  }

  -- The next revision of a profile that is there.
  pub written_next-IsFiled :
      (row : Row)
      → lookup wire.id db.profiles ≡ some row
      → wire.revision ≡ row.revision + 1
      → IsFiled (written wire reason active created now db)
  written_next-IsFiled row there next = record {
    keys = insert-HasKeys wire.id (row_of wire active created now) db.profiles v.keys;
    recorded = λ id rev. ground (
      arith,
      there,
      v.recorded id rev,
      lookup-insert wire.id id (row_of wire active created now) db.profiles,
      revision_at-append id rev db.revisions (revision_of wire reason now),
    );
    owned = written-owned;
  }
