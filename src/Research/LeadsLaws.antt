-- ===== src/Research/LeadsLaws.antt =====
-- What `saveLead` leaves in the collection.
use oragami.Prelude.{◌≡◌, inl, inr, String, Option, none, [], ◌∷◌, ◌++◌, arith}
use oragami.Client.Tasks.{Outcome, returned, raised, Outcome-cases}
use oragami.Research.Leads.{
  LeadDb, LeadDocument, LeadResponse, NewLead, Mongo, save_lead, get_db, response_of, document,
}

module _ {F : Type 0} (mongo : Mongo F) where
  get_db-leads : (db : LeadDb F) → (get_db mongo db).1.leads ≡ db.leads
  unfolding get_db
  get_db-leads db = ground arith

  -- A lead that is not stored leaves the leads as they are, and one that is stored is answered.
  pub data Saving (db : LeadDb F) (end : Outcome (LeadResponse F) × LeadDb F) : Type 0 where
    not_saved : (e : Option String) → end.0 ≡ raised e → end.1.leads ≡ db.leads → Saving db end
    saved :
        (doc : LeadDocument F)
        → end.0 ≡ returned (response_of mongo none doc)
        → end.1.leads ≡ db.leads ++ doc ∷ []
        → Saving db end

  pub save_lead-Saving : (lead : NewLead F) (db : LeadDb F) → Saving db (save_lead mongo lead db)
  unfolding save_lead
  save_lead-Saving lead db = elim (Outcome-cases (get_db mongo db).0) [
    | inr (e, p) ↦ not_saved e (ground (arith, p)) (ground (arith, p, get_db-leads db))
    | inl (_, p) ↦ elim (Outcome-cases mongo.insert_id) [
      | inr (e, q) ↦ not_saved e (ground (arith, p, q)) (ground (arith, p, q, get_db-leads db))
      | inl (id, q) ↦
          saved (document mongo lead id) (ground (arith, p, q))
            (ground (arith, p, q, get_db-leads db))
    ]
  ]
