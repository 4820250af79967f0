-- ===== src/Lib.antt =====
-- A switch and transport library of a network simulator (ns-2.34 with load balancing): the TCP
-- sinks and senders, the multipath classifier, a queue and some tables of code/ns-2.34.
--
-- A segment that arrives at a sink updates the receive window, is acknowledged at once or after a
-- delay, and the acknowledgement carries the runs of received packets above the cumulative
-- number. On its way a packet is sent by each switch on one of several equal-cost links. At the
-- sender the acknowledgement moves the window and opens or cuts it; duplicates and the
-- retransmission timer make it send again.
--
-- Acker, with its child modules: `class Acker` of tcp/tcp-sink.cc. `update` is in pieces: `grow`
--   doubles the array, `extend` and `place` are its two blocks, `accept` and `collect` deliver.
-- SackStack, Sacker: `class SackStack` and `class Sacker` of tcp/tcp-sink.cc; `append_ack` is in
--   pieces from `dsack_row` to `add_old`.
-- Sink: `class TcpSink` and `class DelAckSink` of tcp/tcp-sink.cc, over Acker or Sacker. What a
--   call hands to the application and sends is a list of outputs.
-- Packet: the headers of common/flags.h and tcp/tcp.h and `initpkt` of common/agent.cc.
-- MultiPath: `MultiPathForwarder::classify` of classifier/classifier-mpath.cc.
-- Simulator: `class Simulator` of common/simulator.cc: the node table, the routes of a flat
--   topology, the traffic counts of the leaf switches and, in Simulator/Hier, the
--   routes of a hierarchical topology. Tables is what a sequence of set-ups leaves in the nodes.
-- Empirical: `EmpiricalRandomVariable` of tools/ranvar.cc: loading the table, and the search in it.
-- Rto: the retransmission timer of `class TcpAgent` of tcp/tcp.cc, rtt_init to rtt_backoff,
--   set_rtx_timer, reset_rtx_timer and newtimer.
-- Uplinks: isSpineFailed and nextValidLink of tcp/tcp.cc.
-- Svt: at the first packet of a flow, in `output` of tcp/tcp.cc: the failed links are read from
--   their text (Parse) and sorted into tables of spines, of which the flow is mapped to one
--   (Mapping). Standing is the abstract view: how one spine stands for the flow.
-- Balance: the link that `output` of tcp/tcp.cc picks for a packet: Start for the first packet,
--   Failure, Wfcs and Weights for the schemes, Pick for the whole choice, over Svt and Uplinks.
-- Stamps: the table of sending times that `output` of tcp/tcp.cc keeps, and its doubling.
-- Sender: the window, the rest of `output`, send_much, send_one, sendmsg and advanceby of
--   tcp/tcp.cc, and, in Sack, `Sack1TcpAgent::send_much` of tcp/tcp-sack1.cc, whose scoreboard is
--   a parameter.
-- Cwnd: slowdown, its parameters, and ecn of tcp/tcp.cc: the cuts of the congestion window;
--   opencwnd and its parameters, in Growth, open it, and Rounds is about a round-trip of it.
-- Recovery: the SACK sender of tcp/tcp-sack1.cc when acknowledgements and timers come, over
--   Sender, Cwnd, Rto and Dctcp: in Newack, newack, recv_newack_helper and spurious_timeout of
--   tcp/tcp.cc; in Loss, dupack_action and partial_ack_action; in Recv, recv; in Timeout, both
--   timeouts. The other children are the proofs: what each operation leaves alone (Calm, Receipt,
--   Noted), the invariant (Sound), one operation each, then sequences of events (Events,
--   FastRetransmit).
-- Dctcp: update_dctcp_alpha and checkCongestionFB of tcp/tcp-sack1.cc.
-- Red: `class REDQueue` of queue/red.cc: the probabilities and the average, and, in Arrival, enque,
--   deque and drop_early; Limit and Mark for what is kept and what is marked.
-- Sacked: is_sacked of tcp/tcp-sack1.cc.
-- Base: shared names, Boolean tests, integers, lists and arrays indexed modulo a power of two.
--
-- Packet numbers are `int` in the code; the model does not bound them, and those that a window
-- keeps are natural numbers. Times are natural numbers of clock ticks. `unsigned int` wraps at
-- 2^32; a number in the text of the failed links that no `int` holds is a failure of reading. Loops
-- that count have the number of rounds as their argument; the others run on fuel:
-- `grow` on two more than the packet number, `collect` on the length of the window, `add_old` on
-- one more than the rows and the stacked blocks together, the searches of the classifier on one
-- round over the table, two of them with a round to spare; `double_past` on one more than the
-- number that is to fit, `populate` and `hier_loop` on the number of nodes, `search_table` on the
-- number of entries, `skip_invalid`, `rounds` and `draw` on the number of links; `many` on
-- more than the data left, `sack_many` on more than the room in the pipe. In Recovery the fuel of
-- `send_much` is a member of Setup, and each theorem says what it needs of it.
--
-- Parameters, since their code is not in the repository: the slot table of a classifier, the
-- scoreboard of the SACK sender, the packet queue of RED, the packet that allocation gives, the
-- time, and when the delay timer fires; the route logic, the lines of a distribution's file, the
-- results of `Random`, the answer of the Tcl procedure get-incoming-traffic, and the arithmetic of
-- `double`, with its logarithm and exponential, in interpolation, in the counters of DCTCP, in the
-- congestion window and in RED.
--
-- Not modelled: RED's initialization, statistics and early-drop target, the link state tables, the
-- 802.11 header, the other random variables and propagation (floating point or library code), and
-- the Tcl and awk scripts. Of the senders, Quick-Start, `QOption_`, the timers that only other
-- variants use, reset, and the base class's own recv and dupack_action (Tahoe) are not modelled.
pub mod Acker
pub mod Balance
pub mod Base
pub mod Cwnd
pub mod Dctcp
pub mod Empirical
pub mod MultiPath
pub mod Packet
pub mod Recovery
pub mod Red
pub mod Rto
pub mod SackStack
pub mod Sacked
pub mod Sacker
pub mod Sender
pub mod Simulator
pub mod Sink
pub mod Stamps
pub mod Svt
pub mod Uplinks
