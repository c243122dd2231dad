-- ===== src/Research/EventsLaws.antt =====
-- The agent's events and the chunks of bytes of its response.
use mathlib.Core.List.{append-nil}
use oragami.Prelude.{◌≡◌, List, [], ◌∷◌}
use oragami.Research.Lines.{Bytes, concat, decoded, concat-decoded, read_lines-concat}
use oragami.Research.Events.{Agent, Ending, body, events_of_response}

-- the events of a response do not depend on the chunks of bytes in which it arrives, also where a
-- chunk ends inside a character.
pub events_of_response-concat :
    {F : Type 0} (agent : Agent F) (chunks : List Bytes) (ending : Ending)
    → events_of_response agent (body chunks ending)
      ≡ events_of_response agent (body (concat chunks ∷ []) ending)
unfolding events_of_response
events_of_response-concat agent chunks ending =
    let texts = λ (values : List Bytes). decoded agent.decoder [] values in
    cc (
      read_lines-concat (texts chunks),
      read_lines-concat (texts (concat chunks ∷ [])),
      concat-decoded agent.decoder [] chunks,
      concat-decoded agent.decoder [] (concat chunks ∷ []),
      append-nil (concat chunks),
    )
