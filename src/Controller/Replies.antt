-- ===== src/Controller/Replies.antt =====
-- pkg/csi/controller.go: the replies that do not depend on the request. The driver keeps no list of
-- volumes, and a snapshot is deleted by doing nothing.
use zerofs_csi_driver.Base.{List, []}
use zerofs_csi_driver.Controller.Create.{Volume}

abbrev pub list_volumes : List Volume
list_volumes = []

abbrev pub delete_snapshot : Unit {0}
delete_snapshot = tt
