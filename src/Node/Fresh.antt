-- ===== src/Node/Fresh.antt =====
-- What `Node::new` of jarl/src/node.rs makes: a voter of its configuration that follows nobody.
use hubby.Node.Build
use hubby.Membership.{Membership}
use hubby.Node.Sound.{Sound}
use hubby.State.{State}
use hubby.Node.{Node}
