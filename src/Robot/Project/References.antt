-- ===== src/Robot/Project/References.antt =====
-- The sync of a project, whatever fails: no request is stored before the pipeline that it names.
use notmanytuples.Result.{Result}
