-- ===== src/Reachable/Targets.antt =====
-- internal/adapter/sqlite: the statements on Kong targets and links keep the keys in order.
use kong_gateway_cert_lite.Prelude.{
  ℕ, List, [], ◌∷◌, true, some, ◌≡◌, refl, arith, any_row, eq_ℕ, ==_iff, inl, inr, Bool-cases,
}
use kong_gateway_cert_lite.Domain.{KongTarget, CertificateKongTarget}
use kong_gateway_cert_lite.World.{World, Database, Result, ok, err}
use kong_gateway_cert_lite.World.Preserves.{Preserves-pure, Preserves-bind, Preserves-statement}
use kong_gateway_cert_lite.Sqlite.KongTargets
use kong_gateway_cert_lite.Sqlite.Links
use kong_gateway_cert_lite.Sqlite.Columns.{roll_back}
use kong_gateway_cert_lite.Reachable.Sound.{Sound, HasRow, of_certificate, of_target}
use kong_gateway_cert_lite.Reachable.Changes.{
  Sound-add_target, Sound-map_targets, Sound-add_link, Sound-map_links, Sound-keep_links,
}
use kong_gateway_cert_lite.Reachable.Deletes.{Sound-delete_target}
use kong_gateway_cert_lite.Reachable.Tables.{Safe}

pub Safe-list_targets : Safe KongTargets.list
unfolding KongTargets.list
Safe-list_targets = Preserves-statement Sound _ _ (record { at = λ w h. h })

pub Safe-list_for_certificate : Safe KongTargets.list_for_certificate
unfolding KongTargets.list_for_certificate
Safe-list_for_certificate = Preserves-statement Sound _ _ (record { at = λ w h. h })

pub Safe-get_target : (id : ℕ) → Safe (KongTargets.get id)
unfolding KongTargets.get
Safe-get_target id = Preserves-statement Sound _ _ (record { at = λ w h. ground arith })

pub Safe-create_target : (t : KongTarget) → Safe (KongTargets.create t)
unfolding KongTargets.create
Safe-create_target t = Preserves-statement Sound _ _ (record {
  at = λ w h.
      let added = Sound-add_target w.db h (KongTargets.new_row t w) refl in
      ground (arith, h, added);
})

updated_target_id :
    (t : KongTarget) (w : World) (k : KongTarget) → (KongTargets.updated t w k).id ≡ k.id
updated_target_id t w k = ground (arith, ==_iff k.id t.id)

pub Safe-update_target : (t : KongTarget) → Safe (KongTargets.update t)
unfolding KongTargets.update
Safe-update_target t = Preserves-statement Sound _ _ (record {
  at = λ w h.
      let kept = Sound-map_targets w.db h (KongTargets.updated t w) (updated_target_id t w) in
      ground (arith, h, kept);
})

pub Safe-delete_target : (id : ℕ) → Safe (KongTargets.delete id)
unfolding KongTargets.delete
Safe-delete_target id = Preserves-statement Sound _ _ (record {
  at = λ w h. let deleted = Sound-delete_target w.db h id in ground (arith, h, deleted);
})

pub Safe-list_sync_targets : (id : ℕ) → Safe (Links.list_sync_targets id)
unfolding Links.list_sync_targets
Safe-list_sync_targets id = Preserves-statement Sound _ _ (record { at = λ w h. h })

pub Safe-count_linked : Safe Links.count_linked_targets_by_certificate
unfolding Links.count_linked_targets_by_certificate
Safe-count_linked = Preserves-statement Sound _ _ (record { at = λ w h. h })

pub Safe-get_sync_target : (c t : ℕ) → Safe (Links.get_sync_target c t)
unfolding Links.get_sync_target
Safe-get_sync_target c t = Preserves-statement Sound _ _ (record { at = λ w h. ground arith })

ends_exist :
    (w : World) (c t : ℕ)
    → Links.has_ends w c t ≡ true
    → HasRow of_certificate w.db.certificates (some c) × HasRow of_target w.db.kong_targets (some t)
ends_exist w c t h = (ground (arith, h), ground (arith, h))

pub Safe-upsert : (m : CertificateKongTarget) → Safe (Links.upsert_sync_target m)
unfolding Links.upsert_sync_target
Safe-upsert m = Preserves-statement Sound _ _ (record {
  at = λ w h.
      elim (Bool-cases (any_row (Links.joins m.certificate_id m.kong_target_id) w.db.links)) [
        | inl e ↦ rw e (
            Sound-map_links w.db h (Links.upserted m w) (λ l. ground arith)
              (λ l g. ground (arith, g)))
        | inr e ↦ elim (Bool-cases (Links.has_ends w m.certificate_id m.kong_target_id)) [
          | inl q ↦ rw e (rw q (Sound-add_link w.db h _ refl (ends_exist w _ _ q)))
          | inr q ↦ rw e (rw q h)
        ]
      ];
})

Safe-insert_or_ignore : (c t : ℕ) → Safe (Links.insert_or_ignore c t)
unfolding Links.insert_or_ignore
Safe-insert_or_ignore c t = Preserves-statement Sound _ _ (record {
  at = λ w h. elim (Bool-cases (any_row (Links.joins c t) w.db.links)) [
    | inl e ↦ rw e h
    | inr e ↦ elim (Bool-cases (Links.has_ends w c t)) [
      | inl q ↦ rw e (rw q (Sound-add_link w.db h (Links.new_link w c t) refl (ends_exist w c t q)))
      | inr q ↦ rw e (rw q h)
    ]
  ];
})

Safe-insert_all : (c : ℕ) (ts : List ℕ) → Safe (Links.insert_all c ts)
unfolding Links.insert_all
Safe-insert_all c [] = Preserves-pure Sound tt
Safe-insert_all c (t ∷ ts) =
    Preserves-bind Sound _ _ (Safe-insert_or_ignore c t) (λ _. Safe-insert_all c ts)

Safe-delete_unlinked : (c : ℕ) (ts : List ℕ) → Safe (Links.delete_unlinked c ts)
unfolding Links.delete_unlinked
Safe-delete_unlinked c ts =
    Preserves-statement Sound _ _ (record { at = λ w h. Sound-keep_links w.db h _ })

roll_back-Sound :
    (db : Database) (r : Result Unit × World)
    → Sound db
    → Sound r.1.db
    → Sound (roll_back db r).1.db
roll_back-Sound db (ok a, w) h g = g
roll_back-Sound db (err e, w) h g = h

pub Safe-set_linked_targets : (c : ℕ) (ts : List ℕ) → Safe (Links.set_linked_targets c ts)
unfolding Links.set_linked_targets
Safe-set_linked_targets c ts =
    Preserves-bind Sound _ _ (Preserves-statement Sound _ _ (Preserves-pure Sound tt)) (λ _.
      record {
        at = λ w h. roll_back-Sound w.db _ h (
            (Preserves-bind Sound _ _ (Safe-delete_unlinked c ts) (λ _.
                Preserves-bind Sound _ _ (Safe-insert_all c ts)
                  (λ _. Preserves-statement Sound _ _ (Preserves-pure Sound tt)))).at
              w h);
      })
