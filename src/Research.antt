-- ===== src/Research.antt =====
-- The lead research of the web client: the event stream of the TinyFish agent and the leads that are
-- made of its results, oragami-frontend/lib, and the routes of oragami-frontend/app/api.
pub mod Lines
pub mod Events
pub mod EventsLaws
pub mod Lead
pub mod Leads
pub mod LeadsLaws
pub mod Route
pub mod RouteLaws
pub mod Embeddings
pub mod EmbeddingsLaws
