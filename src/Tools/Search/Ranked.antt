-- ===== src/Tools/Search/Ranked.antt =====
-- The answer of the search.
use ai_agent_hub_project_ome.Base.{List}
use ai_agent_hub_project_ome.Base.Dict.{Dict}
